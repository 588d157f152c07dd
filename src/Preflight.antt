-- ===== src/Preflight.antt =====
-- `inspectHost` of src/preflight.js: what the host can do, over the measured facts.
--
-- The processes it runs and the files it looks for are the fields of `Facts`. An empty MOLA_QEMU is
-- none.
pub mod Reasons
use Prim.Native.String.{◌++◌ as append}
use hyperwake_core.Prelude.{
  String, Bool, true, false, not, ◌&&◌, Option, none, some, List, [], ◌∷◌, any, find, is_some,
  or_else, str_eq, if◌then◌else◌,
}
use hyperwake_core.Text.{strip_prefix}

pub record Facts : Type 0 where
  pub platform : String
  pub arch : String
  pub python : Bool
  pub docker : Bool
  pub ssh : Bool
  pub kvm : Bool
  pub image : Bool
  pub image_path : String
  pub override : Option String
  -- existsSync(path)
  pub exists : String → Bool
  -- has(command)
  pub runs : String → Bool
  -- which(command)
  pub which : String → String
  -- qemuAccelerators(qemu)
  pub accelerators : String → List String
  -- the output of `-device help`; none: it threw
  pub devices : String → Option String

pub record Report : Type 0 where
  pub qemu : Option String
  pub accelerator : Option String
  pub accelerated_graphics : Option Bool
  pub host_ready : Bool
  pub ready : Bool
  pub reason : Option String

-- text.includes(part)
unfoldable pub includes : String → String → Bool
unfolding strip_prefix
includes part String.[] = is_some (strip_prefix part "")
includes part (String.◌∷◌ c s) =
    let later = includes part s in
    if is_some (strip_prefix part (String.◌∷◌ c s)) then true else later

-- The QEMU and its accelerator, or the reason why there is none.
pub data Choice : Type 0 where
  chosen : String → String → Choice
  rejected : String → Choice

abbrev pub offers : Facts → String → String → Bool
offers f accelerator qemu = any (str_eq accelerator) (f.accelerators qemu)

abbrev pub wanted : Facts → String
wanted f = if str_eq f.platform "darwin" then "hvf" else "kvm"

-- The branch `if (override)`.
unfoldable pub overridden : Facts → String → Choice
overridden f qemu =
    if not (f.exists qemu)
    then rejected (append "MOLA_QEMU points at " (append qemu ", which does not exist."))
    else if not (offers f (wanted f) qemu)
    then rejected (append qemu (append " does not offer the " (append (wanted f) " accelerator.")))
    else chosen qemu (wanted f)

-- path.includes('/') ? path : which(path)
abbrev pub absolute : Facts → String → String
absolute f path = if includes "/" path then path else f.which path

abbrev pub mac_candidates : List String
mac_candidates =
    "qemu-system-aarch64" ∷ "/opt/homebrew/bin/qemu-system-aarch64"
    ∷ "/usr/local/bin/qemu-system-aarch64" ∷ []

unfoldable pub mac_choice : Facts → Choice
unfolding includes
mac_choice f = elim (find (offers f "hvf") mac_candidates) [
  | some found ↦ chosen (absolute f found) "hvf"
  | none ↦ rejected "No QEMU with the hvf accelerator. Try `brew install qemu`."
]

abbrev pub linux_candidates : List String
linux_candidates = "qemu-system-x86_64" ∷ "/usr/bin/qemu-system-x86_64" ∷ []

unfoldable pub linux_choice : Facts → Choice
unfolding includes
linux_choice f = elim (find f.runs linux_candidates) [
  | none ↦ rejected "Install qemu-system-x86_64."
  | some qemu ↦
      if not f.kvm
      then rejected
          "No /dev/kvm. Enable virtualisation, or run on bare metal rather than inside a VM."
      else chosen (absolute f qemu) "kvm"
]

abbrev unsupported : Facts → String
unsupported f =
    append "No packaged runtime for "
      (append f.platform (append "/" (append f.arch ". Supported: macOS arm64, Linux x86_64.")))

unfoldable pub choose : Facts → Choice
unfolding overridden mac_choice linux_choice
choose f = elim f.override [
  | some qemu ↦ overridden f qemu
  | none ↦
      if str_eq f.platform "darwin" && str_eq f.arch "arm64"
      then mac_choice f
      else if str_eq f.platform "linux" && str_eq f.arch "x64"
      then linux_choice f
      else rejected (unsupported f)
]

abbrev pub qemu_of : Choice → Option String
qemu_of (chosen qemu accelerator) = some qemu
qemu_of (rejected reason) = none

abbrev pub accelerator_of : Choice → Option String
accelerator_of (chosen qemu accelerator) = some accelerator
accelerator_of (rejected reason) = none

abbrev pub reason_of : Choice → Option String
reason_of (chosen qemu accelerator) = none
reason_of (rejected reason) = some reason

-- report.reason ??= reason, if the tool is missing
abbrev pub missing : Bool → String → Option String → Option String
missing present reason (some earlier) = some earlier
missing true reason none = none
missing false reason none = some reason

-- The reason before the image is looked at.
abbrev pub host_reason : Facts → Option String
host_reason f =
    missing f.ssh "Install an OpenSSH client."
      (missing f.python "Install Python 3.10 or newer." (reason_of (choose f)))

abbrev pub has_gl : Option String → Bool
has_gl none = false
has_gl (some devices) = includes "virtio-gpu-gl-pci" devices

abbrev pub graphics_of : Facts → Option String → Option Bool
graphics_of f none = none
graphics_of f (some qemu) = some (has_gl (f.devices qemu))

unfoldable pub inspect_host : Facts → Report
unfolding choose includes
inspect_host f =
    let host_ready =
      is_some (qemu_of (choose f)) && f.python && f.ssh && not (is_some (host_reason f)) in
    record {
      qemu = qemu_of (choose f);
      accelerator = accelerator_of (choose f);
      accelerated_graphics = graphics_of f (qemu_of (choose f));
      host_ready = host_ready;
      ready = host_ready && f.image;
      reason =
          if host_ready && not f.image
          then some (
              append "No guest image at "
                (append f.image_path ". Build one: see https://mola.sh/#image"))
          else host_reason f;
    }
