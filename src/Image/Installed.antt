-- ===== src/Image/Installed.antt =====
-- What a download leaves of the image that was there.
use hyperwake_core.Prelude.{
  String, ◌≡◌, ◌⊎◌, inl, inr, refl, ap, ◌∙◌, false, Option, none, some, List, [], ◌∷◌, eq_iff,
  str_eq, string_eq, lookup, insert, lookup-insert_self, Bool-cases, arith, if◌then◌else◌,
}
use hyperwake_core.Exec.{
  Failure, Outcome, ok, thrown, Exec, pure, throw, lift, attempt, error, continue, ◌>>=◌,
}
use hyperwake_core.Exec.Keeps.{}
use hyperwake_core.Image.{Bytes, sparse_file}
use hyperwake_core.Image.Sparse.{concat, sparse_file-concat}
use hyperwake_core.Image.Fetched.{artifact_bytes-Stays, put_file-some, fetch_all-Spares}
use hyperwake_core.Image.Download.{
  Removal, gone, stuck, taken, Artifact, Manifest, Network, Directory, Disk, block_size, put_file,
  grown, mismatched, checksum_message, came, artifact_bytes, unpacked, or_corrupt, in_staging,
  fetch_artifact, fetch_all, remove_final, rename, renamed, install, clean_up, download_image,
}

module _ {W : Type 0} (net : Network W) where
  -- The digest is the expected one, where one is.
  abbrev pub Matches : Option String → String → Type 0
  Matches none got = Unit
  Matches (some expected) got = (expected ≡ "") ⊎ (got ≡ expected)

  mismatched-Matches : (o : Option String) (got : String) → mismatched o got ≡ false → Matches o got
  mismatched-Matches none got h = tt
  mismatched-Matches (some x) got h = elim (Bool-cases (str_eq x "")) [
    | inl bare ↦ inl ((eq_iff x "").0 bare)
    | inr given ↦ inr ((eq_iff got x).0 (ground arith))
  ]

  -- The bytes that came for an artifact have its digest, and the file that is staged is what they
  -- unpack to, at the size that the manifest gives.
  abbrev pub IsVerified : Artifact → List Bytes → Option Directory → Type 0
  IsVerified a chunks staged =
      (plain : List Bytes) × (d : Directory) × (unpacked net a.compressed chunks ≡ some plain)
      × Matches a.sha256 (net.sha256 (concat chunks))
      × (staged ≡ some d)
      × (lookup a.name d ≡ some (grown a.sparse_bytes (concat plain)))

  -- The same, and the whole of the staging directory: the file has been put into `d`, as it was
  -- unpacked and then at its size.
  abbrev Staged : Artifact → Directory → List Bytes → Option Directory → Type 0
  Staged a d chunks staged =
      (plain : List Bytes) × (unpacked net a.compressed chunks ≡ some plain)
      × Matches a.sha256 (net.sha256 (concat chunks))
      × (staged
          ≡ some (
              insert a.name (grown a.sparse_bytes (concat plain)) (insert a.name (concat plain) d)))

  -- What follows the unpacking.
  abbrev stored : Artifact → List Bytes → List Bytes → Exec (Disk W) (Unit {0})
  stored a chunks plain = in_staging net (put_file a.name (sparse_file block_size plain)) >>= λ _.
      (if mismatched a.sha256 (net.sha256 (concat chunks))
        then lift (error (checksum_message a.name a.sha256 (net.sha256 (concat chunks))))
        else pure tt)
      >>= λ _.
          in_staging net (put_file a.name (grown a.sparse_bytes (sparse_file block_size plain)))

  stored-Staged :
      (a : Artifact) (chunks plain : List Bytes) (t : Disk W) (d : Directory)
      → unpacked net a.compressed chunks ≡ some plain
      → t.staging ≡ some d
      → (stored a chunks plain t).0 ≡ ok tt
      → Staged a d chunks (stored a chunks plain t).1.staging
  unfolding ◌>>=◌ lift pure
  stored-Staged a chunks plain t d unpack there h =
      elim (Bool-cases (mismatched a.sha256 (net.sha256 (concat chunks)))) [
        | inl wrong ↦ absurd (cc (rw wrong at h))
        | inr right ↦
            let first = insert a.name (sparse_file block_size plain) d in
            let file = grown a.sparse_bytes (sparse_file block_size plain) in
            rw right (
              plain,
              unpack,
              mismatched-Matches a.sha256 _ right,
              put_file-some net a.name file _ first
                    (put_file-some net a.name (sparse_file block_size plain) t.staging d there)
                  ∙ ap (λ f. some (insert a.name (grown a.sparse_bytes f) (insert a.name f d)))
                      (sparse_file-concat block_size plain),
            )
      ]

  unpacked_from :
      (a : Artifact) (chunks : List Bytes) (o : Option (List Bytes)) (t : Disk W) (d : Directory)
      → unpacked net a.compressed chunks ≡ o
      → t.staging ≡ some d
      → (continue (or_corrupt net o) (stored a chunks) t).0 ≡ ok tt
      → Staged a d chunks (continue (or_corrupt net o) (stored a chunks) t).1.staging
  unpacked_from a chunks none t d unpack there h = absurd (cc)
  unpacked_from a chunks (some plain) t d unpack there h =
      stored-Staged a chunks plain t d unpack there h

  bytes_from :
      (a : Artifact) (r : Outcome (List Bytes)) (t : Disk W) (d : Directory)
      → t.staging ≡ some d
      → (continue r
          (λ chunks. lift (or_corrupt net (unpacked net a.compressed chunks)) >>= stored a chunks)
          t).0
        ≡ ok tt
      → (chunks : List Bytes) × (r ≡ ok chunks)
        × Staged a d chunks
            (continue r
              (λ chunks.
                lift (or_corrupt net (unpacked net a.compressed chunks)) >>= stored a chunks)
              t).1.staging
  bytes_from a (thrown e) t d there h = absurd (cc)
  bytes_from a (ok chunks) t d there h = (
    chunks,
    refl,
    unfold ◌>>=◌ lift in unpacked_from a chunks (unpacked net a.compressed chunks) t d refl there h,
  )

  fetched_from :
      (base : String) (a : Artifact) (s : Disk W) (d : Directory)
      → s.staging ≡ some d
      → (fetch_artifact net base a s).0 ≡ ok tt
      → (chunks : List Bytes) × ((artifact_bytes net base a.name 0 a.parts s).0 ≡ ok chunks)
        × Staged a d chunks (fetch_artifact net base a s).1.staging
  unfolding fetch_artifact
  fetched_from base a s d there h =
      let came = artifact_bytes net base a.name 0 a.parts s in
      let same = ((artifact_bytes-Stays net base a.name 0 a.parts).at s).staging_same in
      unfold ◌>>=◌ in bytes_from a came.0 came.1 d (same ∙ there) h

  -- An artifact that is fetched without an error is staged as the manifest says: the bytes that came
  -- for its parts, in their order, hash to the digest that the manifest gives (where it gives one that
  -- is not empty), and the file reads as what they unpack to, grown with zeroes to the size that the
  -- manifest gives.
  pub fetch_artifact-IsVerified :
      (base : String) (a : Artifact) (s : Disk W) (d : Directory)
      → s.staging ≡ some d
      → (fetch_artifact net base a s).0 ≡ ok tt
      → (chunks : List Bytes) × ((artifact_bytes net base a.name 0 a.parts s).0 ≡ ok chunks)
        × IsVerified a chunks (fetch_artifact net base a s).1.staging
  fetch_artifact-IsVerified base a s d there h =
      let (chunks, came, (plain, unpack, digest, staged)) = fetched_from base a s d there h in
      (
        chunks,
        came,
        (
          plain,
          insert a.name (grown a.sparse_bytes (concat plain)) (insert a.name (concat plain) d),
          unpack,
          digest,
          staged,
          lookup-insert_self a.name _ _,
        ),
      )

  -- The artifacts were fetched one after the other: of each, bytes came for its parts that match its
  -- digest, and the file that they unpack to was put beside those that were there.
  pub data Downloaded (base : String) : List Artifact → Disk W → Disk W → Type 0 where
    done : {s : Disk W} → Downloaded base [] s s
    next :
        {a : Artifact} {rest : List Artifact} {s t u : Disk W} {d : Directory} {chunks : List Bytes}
        → s.staging ≡ some d
        → (artifact_bytes net base a.name 0 a.parts s).0 ≡ ok chunks
        → Staged a d chunks t.staging
        → Downloaded base rest t u
        → Downloaded base (a ∷ rest) s u

  -- All of them were fetched, and the staging directory is there.
  abbrev AllFetched : String → List Artifact → Disk W → Outcome (Unit {0}) → Disk W → Type 0
  AllFetched base rest s (ok _) u =
      (d : Directory) × (u.staging ≡ some d) × Downloaded base rest s u
  AllFetched base rest s (thrown e) u = Unit

  rest-AllFetched :
      (base : String) (a : Artifact) (rest : List Artifact) (s : Disk W) (d : Directory)
      (r : Outcome (Unit {0})) (t : Disk W)
      → s.staging ≡ some d
      → (r ≡ ok tt
          → (chunks : List Bytes) × ((artifact_bytes net base a.name 0 a.parts s).0 ≡ ok chunks)
            × Staged a d chunks t.staging)
      → ((e : Directory)
          → t.staging ≡ some e
          → AllFetched base rest t (fetch_all net base rest t).0 (fetch_all net base rest t).1)
      → AllFetched base
          (a ∷ rest)
          s
          (continue r (λ _. fetch_all net base rest) t).0
          (continue r (λ _. fetch_all net base rest) t).1
  rest-AllFetched base a rest s d (thrown e) t there one more = tt
  rest-AllFetched base a rest s d (ok _) t there one more =
      let (chunks, came, (plain, unpack, digest, staged)) = one refl in
      before (fetch_all net base rest t).1 there came (plain, unpack, digest, staged)
        (fetch_all net base rest t).0 (more _ staged)
    where
      before :
          (u : Disk W) {chunks : List Bytes}
          → s.staging ≡ some d
          → (artifact_bytes net base a.name 0 a.parts s).0 ≡ ok chunks
          → Staged a d chunks t.staging
          → (r : Outcome (Unit {0})) → AllFetched base rest t r u
          → AllFetched base (a ∷ rest) s r u
      before u there came staged (thrown e) h = tt
      before u there came staged (ok _) (e, final, chain) =
          (e, final, Downloaded.next there came staged chain)

  fetch_all-AllFetched :
      (base : String) (artifacts : List Artifact) (s : Disk W) (d : Directory)
      → s.staging ≡ some d
      → AllFetched base artifacts s
          (fetch_all net base artifacts s).0
          (fetch_all net base artifacts s).1
  unfolding fetch_all ◌>>=◌
  fetch_all-AllFetched base [] s d there = unfold pure in (d, there, Downloaded.done)
  fetch_all-AllFetched base (a ∷ rest) s d there =
      rest-AllFetched base a rest s d (fetch_artifact net base a s).0
        (fetch_artifact net base a s).1 there (λ h. fetched_from base a s d there h)
        (λ e staged. fetch_all-AllFetched base rest (fetch_artifact net base a s).1 e staged)

  -- The world once the final directory was removed.
  abbrev world_after : Option Directory → W → W
  world_after none w = w
  world_after (some dir) w = (net.remove dir w).1

  -- Why the image that was there is lost, after all the artifacts were fetched in the world `w`: its
  -- removal failed and left this of it, or it was removed and the renaming failed.
  abbrev pub IsLost : Option Directory → W → Failure → Option Directory → Type 0
  IsLost old w e left =
      ((dir : Directory) × (old ≡ some dir) × ((net.remove dir w).0 ≡ stuck e left))
      ⊎ ((left ≡ none) × ((net.rename (world_after old w)).0 ≡ thrown e))

  -- What a download leaves, by how it ends.
  abbrev pub Leaves : String → Manifest → Disk W → Outcome (Unit {0}) → Disk W → Type 0
  Leaves url m before (ok _) after =
      (u : Disk W) × (d : Directory) × Downloaded url m.artifacts
        (record before { staging = some [] }) u
      × (u.staging ≡ some d)
      × (after.final ≡ some (insert "installed.json" m.spelt d))
      × (after.staging ≡ none)
  Leaves url m before (thrown e) after =
      (after.staging ≡ none)
      × ((after.final ≡ before.final)
          ⊎ ((u : Disk W) × Downloaded url m.artifacts (record before { staging = some [] }) u
              × IsLost before.final u.world e after.final))

  -- What follows the artifacts.
  abbrev conclusion : Manifest → Exec (Disk W) (Unit {0})
  conclusion m = in_staging net (put_file "installed.json" m.spelt) >>= λ _.
      remove_final net >>= λ _. rename net

  module _ (url : String) (m : Manifest) (before u : Disk W) (d : Directory)
      (chain : Downloaded url m.artifacts (record before { staging = some [] }) u)
      (there : u.staging ≡ some d) where
    abbrev whole : Directory
    whole = insert "installed.json" m.spelt d

    renamed-Leaves :
        (t : Disk W) (r : Outcome (Unit {0}))
        → t.staging ≡ some whole
        → t.final ≡ none
        → (net.rename (world_after before.final u.world)).0 ≡ r
        → Leaves url m before
            (clean_up net r (renamed net r t)).0
            (clean_up net r (renamed net r t)).1
    unfolding ◌>>=◌ throw pure
    renamed-Leaves t (ok _) staged absent e = (u, d, chain, there, staged, refl)
    renamed-Leaves t (thrown x) staged absent e = (refl, inr (u, chain, inr (absent, e)))

    removed-Leaves :
        (dir : Directory) (r : Removal) (t : Disk W)
        → before.final ≡ some dir
        → (net.remove dir u.world).0 ≡ r
        → t.staging ≡ some whole
        → t.world ≡ (net.remove dir u.world).1
        → Leaves url m before
            (clean_up net
              (continue (taken net r t).0 (λ _. rename net) (taken net r t).1).0
              (continue (taken net r t).0 (λ _. rename net) (taken net r t).1).1).0
            (clean_up net
              (continue (taken net r t).0 (λ _. rename net) (taken net r t).1).0
              (continue (taken net r t).0 (λ _. rename net) (taken net r t).1).1).1
    unfolding ◌>>=◌ throw
    removed-Leaves dir (stuck x left) t old stays staged world =
        (refl, inr (u, chain, inl (dir, old, stays)))
    removed-Leaves dir gone t old removes staged world =
        renamed-Leaves (record t { final = none; world = (net.rename t.world).1 })
          (net.rename t.world).0 staged refl (rw (old, world) refl)

    concluded-Leaves :
        (o : Option Directory)
        → u.final ≡ o
        → before.final ≡ o
        → Leaves url m before
            (clean_up net (conclusion m u).0 (conclusion m u).1).0
            (clean_up net (conclusion m u).0 (conclusion m u).1).1
    unfolding ◌>>=◌
    concluded-Leaves none kept old = rw kept (
        renamed-Leaves
          (record u {
            staging = put_file "installed.json" m.spelt u.staging;
            world = (net.rename u.world).1;
          })
          (net.rename u.world).0 (put_file-some net "installed.json" m.spelt u.staging d there) kept
          (rw old refl))
    concluded-Leaves (some dir) kept old = rw kept (
        removed-Leaves dir (net.remove dir u.world).0
          (record u {
            staging = put_file "installed.json" m.spelt u.staging;
            world = (net.remove dir u.world).1;
          })
          old refl (put_file-some net "installed.json" m.spelt u.staging d there) refl)

  fetched-Leaves :
      (url : String) (m : Manifest) (before u : Disk W) (r : Outcome (Unit {0}))
      → AllFetched url m.artifacts (record before { staging = some [] }) r u
      → u.final ≡ before.final
      → Leaves url m before
          (clean_up net (continue r (λ _. conclusion m) u).0 (continue r (λ _. conclusion m) u).1).0
          (clean_up net (continue r (λ _. conclusion m) u).0 (continue r (λ _. conclusion m) u).1).1
  fetched-Leaves url m before u (ok _) (d, there, chain) kept =
      concluded-Leaves url m before u d chain there before.final kept refl
  fetched-Leaves url m before u (thrown e) h kept = unfold ◌>>=◌ throw in (refl, inl kept)

  -- A download whose manifest was read leaves no staging directory. If it succeeds, every artifact of
  -- the manifest was fetched, in its order, and put into the staging directory with the digest that the
  -- manifest gives, and the image is that directory with the manifest recorded in it. If it fails, the
  -- image that was there is as it was, unless all the artifacts were fetched and then the removal of
  -- the old image failed, which leaves what the removal left, or the renaming did, which leaves no
  -- image; and the error is that failure's.
  pub download_image-Leaves :
      (url : String) (m : Manifest) (before : Disk W)
      → Leaves url m before
          (download_image net url (ok m) before).0
          (download_image net url (ok m) before).1
  unfolding download_image install ◌>>=◌ lift attempt
  download_image-Leaves url m before =
      let s = record before { staging = some [] } in
      fetched-Leaves url m before (fetch_all net url m.artifacts s).1
        (fetch_all net url m.artifacts s).0 (fetch_all-AllFetched url m.artifacts s [] refl)
        ((fetch_all-Spares net url m.artifacts).at s).final_kept
