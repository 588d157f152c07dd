-- ===== src/Tests/Images.antt =====
-- Sparse files and downloads on small inputs.
use hyperwake_core.Prelude.{
  ◌≡◌, refl, ◌<◌, true, none, some, List, [], ◌∷◌, length, arith, string_eq,
}
use hyperwake_core.Exec.{ok, ◌>>=◌}
use hyperwake_core.Image.{Bytes, opened, sparse_file, write}
use hyperwake_core.Image.Sparse.{concat, sparse_file-concat, write-pending-lt}
use hyperwake_core.Image.Download.{
  Artifact, Manifest, Network, Disk, fetch_artifact, download_image, artifact_bytes, gone, arrived,
}
use hyperwake_core.Image.Installed.{
  Leaves, IsVerified, download_image-Leaves, fetch_artifact-IsVerified,
}

-- A block of data, a hole, and half a block of data, cut within the blocks.
abbrev chunks : List Bytes
chunks = (1 ∷ 2 ∷ 0 ∷ []) ∷ (0 ∷ 7 ∷ []) ∷ []

sparse_runs : sparse_file 2 chunks ≡ 1 ∷ 2 ∷ 0 ∷ 0 ∷ 7 ∷ []
unfolding sparse_file
sparse_runs = refl

sparse_file-concat_example : sparse_file 2 chunks ≡ concat chunks
sparse_file-concat_example = sparse_file-concat 2 chunks

write-pending-lt_example : length (write 2 (1 ∷ 2 ∷ 3 ∷ []) opened).pending < 2
write-pending-lt_example = write-pending-lt 2 (1 ∷ 2 ∷ 3 ∷ []) opened (omega arith)

-- A network on which every part is one chunk, and every digest is 'd'.
abbrev network : Network (Unit {0})
network = record {
  fetch = λ url w. (arrived ((4 ∷ 5 ∷ []) ∷ []) none, w);
  pause = λ ms w. w;
  resolved = λ url base. url;
  sha256 = λ bytes. "d";
  decompressed = λ cs. some cs;
  remove = λ dir w. (gone, w);
  rename = λ w. (ok tt, w);
}

abbrev artifact : Artifact
artifact = record {
  name = "root.ext4";
  parts = record { url = "a"; bytes = 2 } ∷ record { url = "b"; bytes = 2 } ∷ [];
  compressed = true;
  sha256 = some "d";
  sparse_bytes = some 6;
}

abbrev manifest : Manifest
manifest = record { artifacts = artifact ∷ []; spelt = 1 ∷ [] }

abbrev disk : Disk (Unit {0})
disk = record { final = some (("root.ext4", 9 ∷ []) ∷ []); staging = some []; world = tt }

fetched : (fetch_artifact network "base" artifact disk).0 ≡ ok tt
unfolding fetch_artifact ◌>>=◌
fetched = refl

fetch_artifact-IsVerified_example :
    (cs : List Bytes) × ((artifact_bytes network "base" "root.ext4" 0 artifact.parts disk).0
      ≡ ok cs)
    × IsVerified network artifact cs (fetch_artifact network "base" artifact disk).1.staging
fetch_artifact-IsVerified_example =
    fetch_artifact-IsVerified network "base" artifact disk [] refl fetched

download_image-Leaves_example :
    Leaves network "base" manifest disk
      (download_image network "base" (ok manifest) disk).0
      (download_image network "base" (ok manifest) disk).1
download_image-Leaves_example = download_image-Leaves network "base" manifest disk
