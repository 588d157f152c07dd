-- ===== src/Image/Fetched.antt =====
-- What the fetching of an image's artifacts leaves as it was.
use hyperwake_core.Prelude.{
  ℕ, zero, suc, String, ◌≡◌, refl, ◌∙◌, Option, none, some, List, [], ◌∷◌, string_eq, insert,
}
use hyperwake_core.Exec.{Outcome, Exec, pure, lift, ◌>>=◌}
use hyperwake_core.Exec.Keeps.{
  IsPreorder, Keeps, Keeps-pure, Keeps-throw, Keeps-lift, Keeps-if, Keeps-bind,
}
use hyperwake_core.Image.{Bytes}
use hyperwake_core.Image.Download.{
  Part, Artifact, Network, Directory, Disk, put_file, part_error, came, or_again, fetch, pause,
  fetch_part, artifact_bytes, in_staging, fetch_artifact, fetch_all,
}

-- Fetching the bytes changes neither directory.
pub record Stays {W : Type 0} (s t : Disk W) : Type 0 where
  final_same : t.final ≡ s.final
  pub staging_same : t.staging ≡ s.staging

-- The installed image is as it was, and if there was a staging directory there is one still.
pub record Spares {W : Type 0} (s t : Disk W) : Type 0 where
  pub final_kept : t.final ≡ s.final
  pub staging_kept : (d : Directory) → s.staging ≡ some d → (e : Directory) × (t.staging ≡ some e)

module _ {W : Type 0} (net : Network W) where
  Stays-preorder : IsPreorder (Stays {W = W})
  Stays-preorder = record {
    here = λ s. record { final_same = refl; staging_same = refl };
    chain = λ s t u a b. record {
      final_same = b.final_same ∙ a.final_same;
      staging_same = b.staging_same ∙ a.staging_same;
    };
  }

  bind-Stays :
      {A B : Type 0} (m : Exec (Disk W) A) (f : A → Exec (Disk W) B)
      → Keeps Stays m
      → ((a : A) → Keeps Stays (f a))
      → Keeps Stays (m >>= f)
  bind-Stays = Keeps-bind Stays-preorder

  Spares-preorder : IsPreorder (Spares {W = W})
  Spares-preorder = record {
    here = λ s. record { final_kept = refl; staging_kept = λ d h. (d, h) };
    chain = λ s t u a b. record {
      final_kept = b.final_kept ∙ a.final_kept;
      staging_kept = λ d h. let (e, there) = a.staging_kept d h in b.staging_kept e there;
    };
  }

  bind-Spares :
      {A B : Type 0} (m : Exec (Disk W) A) (f : A → Exec (Disk W) B)
      → Keeps Spares m
      → ((a : A) → Keeps Spares (f a))
      → Keeps Spares (m >>= f)
  bind-Spares = Keeps-bind Spares-preorder

  lift-Spares : {A : Type 0} (r : Outcome A) → Keeps (Spares {W = W}) (lift r)
  lift-Spares = Keeps-lift Spares-preorder

  pure-Spares : {A : Type 0} (a : A) → Keeps (Spares {W = W}) (pure a)
  pure-Spares = Keeps-pure Spares-preorder

  fetch-Stays : (url : String) → Keeps Stays (fetch net url)
  fetch-Stays url = record { at = λ s. record { final_same = refl; staging_same = refl } }

  pause-Stays : (ms : ℕ) → Keeps Stays (pause net ms)
  pause-Stays ms = record { at = λ s. record { final_same = refl; staging_same = refl } }

  or_again-Stays :
      (name : String) (index : ℕ) (o : Option (Outcome (List Bytes)) × String)
      (again : String → Exec (Disk W) (List Bytes))
      → ((message : String) → Keeps Stays (again message))
      → Keeps Stays (or_again net name index o again)
  or_again-Stays name index (some outcome, message) again k = Keeps-lift Stays-preorder outcome
  or_again-Stays name index (none, message) again k = k message

  fetch_part-Stays :
      (name : String) (index : ℕ) (url : String) (tried left : ℕ)
      → Keeps Stays (fetch_part net name index url tried left)
  unfolding fetch_part
  fetch_part-Stays name index url tried zero = bind-Stays _ _ (fetch-Stays url) (λ f.
      or_again-Stays name index (came net name index f) _
        (λ message. Keeps-throw Stays-preorder (part_error name index message)))
  fetch_part-Stays name index url tried (suc left) = bind-Stays _ _ (fetch-Stays url) (λ f.
      or_again-Stays name index (came net name index f) _ (λ message.
        bind-Stays _ _ (pause-Stays _) (λ _. fetch_part-Stays name index url (suc tried) left)))

  pub artifact_bytes-Stays :
      (base name : String) (index : ℕ) (parts : List Part)
      → Keeps Stays (artifact_bytes net base name index parts)
  unfolding artifact_bytes
  artifact_bytes-Stays base name index [] = Keeps-pure Stays-preorder _
  artifact_bytes-Stays base name index (part ∷ parts) =
      bind-Stays _ _ (fetch_part-Stays name index _ 1 2) (λ here.
        bind-Stays _ _ (artifact_bytes-Stays base name (suc index) parts)
          (λ later. Keeps-pure Stays-preorder _))

  Stays-Spares : {A : Type 0} (m : Exec (Disk W) A) → Keeps Stays m → Keeps Spares m
  Stays-Spares m k = record {
    at = λ s. record {
      final_kept = (k.at s).final_same;
      staging_kept = λ d h. (d, (k.at s).staging_same ∙ h);
    };
  }

  pub put_file-some :
      (name : String) (file : Bytes) (o : Option Directory) (d : Directory)
      → o ≡ some d
      → put_file name file o ≡ some (insert name file d)
  put_file-some name file o d h = rw h refl

  put-Spares : (name : String) (file : Bytes) → Keeps Spares (in_staging net (put_file name file))
  put-Spares name file = record {
    at = λ s. record {
      final_kept = refl;
      staging_kept = λ d h. (insert name file d, put_file-some name file s.staging d h);
    };
  }

  fetch_artifact-Spares : (base : String) (a : Artifact) → Keeps Spares (fetch_artifact net base a)
  unfolding fetch_artifact
  fetch_artifact-Spares base a =
      bind-Spares _ _ (Stays-Spares _ (artifact_bytes-Stays base a.name 0 a.parts)) (λ chunks.
        bind-Spares _ _ (lift-Spares _) (λ plain. bind-Spares _ _ (put-Spares _ _) (λ _.
          bind-Spares _ _ (Keeps-if _ _ _ (lift-Spares _) (pure-Spares tt)) (λ _. put-Spares _ _))))

  pub fetch_all-Spares :
      (base : String) (artifacts : List Artifact) → Keeps Spares (fetch_all net base artifacts)
  unfolding fetch_all
  fetch_all-Spares base [] = pure-Spares tt
  fetch_all-Spares base (a ∷ as') =
      bind-Spares _ _ (fetch_artifact-Spares base a) (λ _. fetch_all-Spares base as')
