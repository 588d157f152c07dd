-- ===== src/Preflight/Reasons.antt =====
-- When a host is called ready, and what is said when it is not.
use hyperwake_core.Prelude.{
  String, ◌≡◌, ◌↔◌, ◌⊎◌, inl, inr, Bool, true, not, ◌&&◌, none, some, List, [], ◌∷◌, arith, any,
  find, is_some, Option-cases, Bool-cases, str_eq, if◌then◌else◌,
}
use hyperwake_core.Preflight.{
  Facts, Choice, choose, inspect_host, qemu_of, reason_of, missing, offers, mac_candidates,
  linux_candidates, overridden, mac_choice, linux_choice, wanted,
}

ready-parts :
    (c : Choice) (python ssh image : Bool) (no_image : String)
    → let reason =
        missing ssh "Install an OpenSSH client."
          (missing python "Install Python 3.10 or newer." (reason_of c)) in
      let host_ready = is_some (qemu_of c) && python && ssh && not (is_some reason) in
      ((host_ready && image) ≡ true)
      ↔ ((if host_ready && not image then some no_image else reason) ≡ none)
ready-parts c python ssh image no_image = ground arith

-- A host is called ready exactly when the report gives no reason against it: a host that is not
-- ready is always told why, and a ready one is told nothing.
inspect_host-ready_iff :
    (f : Facts) → ((inspect_host f).ready ≡ true) ↔ ((inspect_host f).reason ≡ none)
unfolding inspect_host
inspect_host-ready_iff f = ready-parts (choose f) f.python f.ssh f.image _

-- What was measured of a host with a QEMU to run: the operator's QEMU exists and offers the
-- accelerator of the platform, or a candidate on an Apple silicon Mac offers hvf, or one runs on an
-- x86-64 Linux that has /dev/kvm.
abbrev pub IsMeasured : Facts → Type 0
IsMeasured f =
    ((q : String) × (f.override ≡ some q) × (f.exists q ≡ true) × (offers f (wanted f) q ≡ true))
    ⊎ (((f.override ≡ none)
          × (str_eq f.platform "darwin" ≡ true)
          × (str_eq f.arch "arm64" ≡ true)
          × (any (offers f "hvf") mac_candidates ≡ true))
        ⊎ ((f.override ≡ none)
            × (str_eq f.platform "linux" ≡ true)
            × (str_eq f.arch "x64" ≡ true)
            × (any f.runs linux_candidates ≡ true)
            × (f.kvm ≡ true)))

any-find :
    (p : String → Bool) (xs : List String) (x : String) → find p xs ≡ some x → any p xs ≡ true
any-find p [] x h = absurd (cc)
any-find p (y ∷ xs) x h = ground (arith, any-find p xs x)

overridden_measured :
    (f : Facts) (q : String)
    → is_some (qemu_of (overridden f q)) ≡ true
    → (f.exists q ≡ true) × (offers f (wanted f) q ≡ true)
unfolding overridden
overridden_measured f q h = ground arith

mac_measured :
    (f : Facts)
    → is_some (qemu_of (mac_choice f)) ≡ true
    → any (offers f "hvf") mac_candidates ≡ true
unfolding mac_choice
mac_measured f h = elim (Option-cases (find (offers f "hvf") mac_candidates)) [
  | inl missed ↦ absurd (cc (rw (mac_choice, missed) at h))
  | inr (q, found) ↦ any-find (offers f "hvf") mac_candidates q found
]

linux_measured :
    (f : Facts)
    → is_some (qemu_of (linux_choice f)) ≡ true
    → (any f.runs linux_candidates ≡ true) × (f.kvm ≡ true)
unfolding linux_choice
linux_measured f h = elim (Option-cases (find f.runs linux_candidates)) [
  | inl missed ↦ absurd (cc (rw (linux_choice, missed) at h))
  | inr (q, found) ↦
      (any-find f.runs linux_candidates q found, ground (arith, rw (linux_choice, found) at h))
]

choose-IsMeasured : (f : Facts) → is_some (qemu_of (choose f)) ≡ true → IsMeasured f
unfolding choose
choose-IsMeasured f h = elim (Option-cases f.override) [
  | inr (q, given) ↦
      let (exists, offered) = overridden_measured f q (rw (choose, given) at h) in
      inl (q, given, exists, offered)
  | inl none_given ↦ elim (Bool-cases (str_eq f.platform "darwin" && str_eq f.arch "arm64")) [
    | inl mac ↦ inr (
        inl (
          none_given,
          ground arith,
          ground arith,
          mac_measured f (rw (choose, none_given, mac) at h),
        ))
    | inr not_mac ↦ elim (Bool-cases (str_eq f.platform "linux" && str_eq f.arch "x64")) [
      | inl linux ↦
          let (runs, kvm) = linux_measured f (rw (choose, none_given, not_mac, linux) at h) in
          inr (inr (none_given, ground arith, ground arith, runs, kvm))
      | inr neither ↦ absurd (cc (rw (choose, none_given, not_mac, neither) at h))
    ]
  ]
]

-- A host is called ready only if a QEMU was measured on it that can use the platform's accelerator,
-- in one of the three ways that are supported, and Python, an OpenSSH client and a guest image are
-- there.
pub inspect_host-IsMeasured :
    (f : Facts)
    → (inspect_host f).ready ≡ true
    → IsMeasured f × (f.python ≡ true) × (f.ssh ≡ true) × (f.image ≡ true)
unfolding inspect_host
inspect_host-IsMeasured f h =
    (choose-IsMeasured f (ground arith), ground arith, ground arith, ground arith)
