-- ===== src/Image/Download.antt =====
-- `fetchArtifact` and `downloadImage` of src/image.js, over the two directories that they touch.
--
-- fetch, SHA-256, zstd, the resolution of a part's URL, the removal of the old image and the
-- rename are arguments. A directory is its files by name; the manifest is read as its fields, and is put into the directory beside them. The
-- progress display is left out. The staging directory is taken to be made and removed without an
-- error, and the name of an artifact to be that of a file, without a path.
use mathlib.Core.Option
use hyperwake_core.Prelude.{
  ℕ, zero, suc, ◌*◌, String, Bool, true, false, not, ◌&&◌, Option, none, some, List, [], ◌∷◌, ◌++◌,
  ltb, str_eq, string_eq, insert, length, or_else, if◌then◌else◌,
}
use Prim.Native.String.{◌++◌ as append}
use hyperwake_core.Exec.{
  Failure, Outcome, ok, thrown, error, Exec, pure, throw, lift, attempt, ◌>>=◌, ◌>>◌,
}
use hyperwake_core.Text.{decimal}
use hyperwake_core.Image.{Bytes, sparse_file, truncate}
use hyperwake_core.Image.Sparse.{concat}

pub record Part : Type 0 where
  pub url : String
  pub bytes : ℕ

pub record Artifact : Type 0 where
  pub name : String
  -- artifact.parts ?? [{ url, bytes }]
  pub parts : List Part
  -- artifact.compression === 'zstd'
  pub compressed : Bool
  pub sha256 : Option String
  pub sparse_bytes : Option ℕ

pub record Manifest : Type 0 where
  pub artifacts : List Artifact
  -- JSON.stringify(manifest, null, 2)
  pub spelt : Bytes

-- What became of a fetch: it failed, it was answered with another status, or its body came, whole or
-- cut off by an error.
pub data Fetched : Type 0 where
  failed : String → Fetched
  refused : ℕ → Fetched
  arrived : List Bytes → Option String → Fetched

-- What rmSync came to on a directory: it is gone, or an error left this of it.
pub data Removal : Type 0 where
  gone : Removal
  stuck : Failure → Option (List (String × Bytes)) → Removal

pub record Network (W : Type 0) : Type 0 where
  pub fetch : String → W → Fetched × W
  pub pause : ℕ → W → W
  -- new URL(url, base)
  pub resolved : String → String → String
  pub sha256 : Bytes → String
  -- createZstdDecompress(); none: the stream is not valid.
  pub decompressed : List Bytes → Option (List Bytes)
  -- rmSync(final, { recursive: true, force: true }) where there is a directory
  pub remove : List (String × Bytes) → W → Removal × W
  -- renameSync(staging, final), which may fail
  pub rename : W → Outcome (Unit {0}) × W

abbrev pub Directory : Type 0
Directory = List (String × Bytes)

pub record Disk (W : Type 0) : Type 0 where
  pub final : Option Directory
  pub staging : Option Directory
  pub world : W

-- 1 << 20
abbrev pub block_size : ℕ
block_size = 1048576

abbrev pub part_error : String → ℕ → String → Failure
part_error name index message = record {
  status = none;
  message = append name (append " part " (append (decimal (suc index)) (append ": " message)));
  code = none;
}

abbrev pub too_short : ℕ → Bytes → Bool
too_short n file = ltb (length file) n

-- if (artifact.sparse_bytes && size < artifact.sparse_bytes) truncateSync(…)
unfoldable pub grown : Option ℕ → Bytes → Bytes
unfolding truncate
grown none file = file
grown (some n) file = if too_short n file then truncate n file else file

abbrev pub mismatched : Option String → String → Bool
mismatched none got = false
mismatched (some expected) got = not (str_eq expected "") && not (str_eq got expected)

abbrev pub checksum_message : String → Option String → String → String
checksum_message name expected got = append name (
    append ": checksum mismatch (expected "
      (append (or_else expected "") (append ", got " (append got ")"))))

abbrev pub put_file : String → Bytes → Option Directory → Option Directory
put_file name file d = Option.map (insert name file) d

module _ {W : Type 0} (net : Network W) where
  -- What comes of one fetch of a part: its chunks, an error that is final, or (none) another try.
  abbrev pub came : String → ℕ → Fetched → Option (Outcome (List Bytes)) × String
  came name index (failed message) = (none, message)
  came name index (refused status) = (none, append "HTTP " (decimal status))
  came name index (arrived chunks none) = (some (ok chunks), "")
  came name index (arrived chunks (some message)) = (some (error message), "")

  abbrev pub or_again :
      String
      → ℕ
      → Option (Outcome (List Bytes)) × String
      → (String → Exec (Disk W) (List Bytes))
      → Exec (Disk W) (List Bytes)
  or_again name index (some outcome, message) again = lift outcome
  or_again name index (none, message) again = again message

  abbrev pub fetch : String → Exec (Disk W) Fetched
  fetch url d = let (f, w) = net.fetch url d.world in (ok f, record d { world = w })

  abbrev pub pause : ℕ → Exec (Disk W) (Unit {0})
  pause ms d = (ok tt, record d { world = net.pause ms d.world })

  -- The loop over the attempts, of which `left` follow this one.
  unfoldable pub fetch_part : String → ℕ → String → ℕ → ℕ → Exec (Disk W) (List Bytes)
  unfolding decimal
  fetch_part name index url tried zero = do
    f ← fetch url
    or_again name index (came name index f) (λ message. throw (part_error name index message))
  fetch_part name index url tried (suc left) = do
    f ← fetch url
    or_again name index (came name index f)
        (λ message. pause (tried * 2000) >> fetch_part name index url (suc tried) left)

  -- artifactBytes(artifact, …, base)
  unfoldable pub artifact_bytes : String → String → ℕ → List Part → Exec (Disk W) (List Bytes)
  unfolding fetch_part
  artifact_bytes base name index [] = pure []
  artifact_bytes base name index (part ∷ parts) = do
    here ← fetch_part name index (net.resolved part.url base) 1 2
    later ← artifact_bytes base name (suc index) parts
    pure (here ++ later)

  abbrev pub unpacked : Bool → List Bytes → Option (List Bytes)
  unpacked true chunks = net.decompressed chunks
  unpacked false chunks = some chunks

  abbrev pub or_corrupt : Option (List Bytes) → Outcome (List Bytes)
  or_corrupt none = error "zstd"
  or_corrupt (some chunks) = ok chunks

  abbrev pub in_staging : (Option Directory → Option Directory) → Exec (Disk W) (Unit {0})
  in_staging f d = (ok tt, record d { staging = f d.staging })

  -- fetchArtifact(artifact, into, base)
  unfoldable pub fetch_artifact : String → Artifact → Exec (Disk W) (Unit {0})
  unfolding artifact_bytes sparse_file grown
  fetch_artifact base a = do
    chunks ← artifact_bytes base a.name 0 a.parts
    plain ← lift (or_corrupt (unpacked a.compressed chunks))
    in_staging (put_file a.name (sparse_file block_size plain))
    if mismatched a.sha256 (net.sha256 (concat chunks))
        then lift (error (checksum_message a.name a.sha256 (net.sha256 (concat chunks))))
        else pure tt
    in_staging (put_file a.name (grown a.sparse_bytes (sparse_file block_size plain)))

  unfoldable pub fetch_all : String → List Artifact → Exec (Disk W) (Unit {0})
  unfolding fetch_artifact
  fetch_all base [] = pure tt
  fetch_all base (a ∷ as') = do fetch_artifact base a; fetch_all base as'

  abbrev pub taken : Removal → Disk W → Outcome (Unit {0}) × Disk W
  taken gone d = (ok tt, record d { final = none })
  taken (stuck e left) d = (thrown e, record d { final = left })

  -- The final directory is removed if there is one; the error of a removal that fails goes on.
  abbrev pub remove_final : Exec (Disk W) (Unit {0})
  remove_final d = elim d.final [
    | none ↦ (ok tt, d)
    | some dir ↦ let (r, w) = net.remove dir d.world in taken r (record d { world = w })
  ]

  -- renameSync(staging, final)
  abbrev pub renamed : Outcome (Unit {0}) → Disk W → Disk W
  renamed (ok _) d = record d { final = d.staging; staging = none }
  renamed (thrown e) d = d

  abbrev pub rename : Exec (Disk W) (Unit {0})
  rename d = let (r, w) = net.rename d.world in (r, renamed r (record d { world = w }))

  -- The body of the try.
  unfoldable pub install : String → Manifest → Exec (Disk W) (Unit {0})
  unfolding fetch_all
  install url manifest = do
    fetch_all url manifest.artifacts
    in_staging (put_file "installed.json" manifest.spelt)
    remove_final
    rename

  abbrev pub clean_up : Outcome (Unit {0}) → Exec (Disk W) (Unit {0})
  clean_up (ok _) = pure tt
  clean_up (thrown e) = in_staging (λ d. none) >> throw e

  -- downloadImage: `manifest` is what the first fetch came to.
  unfoldable pub download_image : String → Outcome Manifest → Exec (Disk W) (Unit {0})
  unfolding install
  download_image url manifest = do
    m ← lift manifest
    in_staging (λ d. some [])
    done ← attempt (install url m)
    clean_up done
