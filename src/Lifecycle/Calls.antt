-- ===== src/Lifecycle/Calls.antt =====
-- What one step of a command does while its entry of the journal stands unanswered: the entry stays,
-- in memory and on disk, and every call of the runtime is about the machine and is made while the
-- file holds the entry.
use hyperwake_core.Prelude.{
  ℕ, String, ◌≡◌, refl, sym, ◌∙◌, ap, true, List, [], ◌∷◌, ◌++◌, lookup, string_eq,
}
use mathlib.Core.List.{append_assoc}
use hyperwake_core.Exec.{Outcome}
use hyperwake_core.Exec.Keeps.{IsPreorder, Keeps}
use hyperwake_core.Records.{OperationKey}
use hyperwake_core.Registry.{Registry}
use hyperwake_core.Engine.{
  Engine, Host, Sent, Call, registry_of, meanwhile, await, send, describe, list, delay, random,
  clock, write,
}
use hyperwake_core.Lifecycle.Entry.{IsEntered, entered_at, machine_of, serve_guests-IsEntered}

-- All of the calls.
abbrev pub All {ℓ κ} : {A : Type ℓ} → (A → Type κ) → List A → Type κ
All P [] = Unit
All P (x ∷ xs) = P x × All P xs

All-append : {A : Type 0} (P : A → Type 0) (xs ys : List A) → All P xs → All P ys → All P (xs ++ ys)
All-append P [] ys hx hy = hy
All-append P (x ∷ xs) ys hx hy = (hx.0, All-append P xs ys hx.1 hy)

-- The new history is the old one with calls before it that satisfy `P`.
pub record Grown (P : Sent → Type 0) (old new : List Sent) : Type 0 where
  pub extra : List Sent
  pub splits : new ≡ extra ++ old
  pub each : All P extra

module _ {P : Sent → Type 0} where
  pub Grown-same : (old : List Sent) → Grown P old old
  Grown-same old = record { extra = []; splits = refl; each = tt }

  pub Grown-trans : (a b c : List Sent) → Grown P a b → Grown P b c → Grown P a c
  Grown-trans a b c g h = record {
    extra = h.extra ++ g.extra;
    splits = h.splits ∙ ap (λ l. h.extra ++ l) g.splits ∙ sym (append_assoc h.extra g.extra a);
    each = All-append P h.extra g.extra h.each g.each;
  }

-- The call is about the machine, and the registry file holds the unanswered entry.
abbrev pub IsIntended : String → OperationKey → Sent → Type 0
IsIntended id key s = (machine_of s.call ≡ id) × (entered_at key (lookup id s.durable) ≡ true)

module _ {W : Type 0} (host : Host W) (id : String) (key : OperationKey) where
  pub record Works (s t : Engine W) : Type 0 where
    pub entry : IsEntered id key (registry_of s) → IsEntered id key (registry_of t)
    pub calls : IsEntered id key (registry_of s) → Grown (IsIntended id key) s.sent t.sent

  pub Works-preorder : IsPreorder Works
  Works-preorder = record {
    here = λ s. record { entry = λ h. h; calls = λ h. Grown-same s.sent };
    chain = λ s t u a b. record {
      entry = λ h. b.entry (a.entry h);
      calls = λ h. Grown-trans s.sent t.sent u.sent (a.calls h) (b.calls (a.entry h));
    };
  }

  meanwhile-Works : (w : W) (e : Engine W) → Works e (meanwhile host w e)
  unfolding meanwhile
  meanwhile-Works w e = record {
    entry = serve_guests-IsEntered id key host.sha256 (host.arrived w).0 e.guests;
    calls = λ h. Grown-same e.sent;
  }

  await-Works : {A : Type 0} (call : W → Outcome A × W) → Keeps Works (await host call)
  unfolding await
  await-Works call = record { at = λ e. meanwhile-Works (call e.world).1 e }

  pub describe-Works : (j : String) → Keeps Works (describe host j)
  unfolding describe
  describe-Works j = await-Works (host.describe j)

  pub list-Works : Keeps Works (list host)
  unfolding list
  list-Works = await-Works host.list

  pub delay-Works : (ms : ℕ) → Keeps Works (delay host ms)
  unfolding delay
  delay-Works ms = record { at = λ e. meanwhile-Works (host.pause ms e.world) e }

  pub random-Works : Keeps Works (random host)
  unfolding random
  random-Works = record { at = λ e. record { entry = λ h. h; calls = λ h. Grown-same e.sent } }

  pub clock-Works : Keeps Works (clock host)
  unfolding clock
  clock-Works = record { at = λ e. record { entry = λ h. h; calls = λ h. Grown-same e.sent } }

  pub send-Works : (c : Call) → machine_of c ≡ id → Keeps Works (send host c)
  unfolding send
  send-Works c about = record {
    at = λ e.
        let s : Sent = record { call = c; durable = e.guests.registry.durable } in
        let e' : Engine W = record e { sent = s ∷ e.sent } in
        let w = (await-Works (host.perform c)).at e' in
        record {
          entry = w.entry;
          calls = λ h.
              Grown-trans e.sent (s ∷ e.sent) _
                (record { extra = s ∷ []; splits = refl; each = ((about, h.on_disk), tt) })
                (w.calls h);
        };
  }

  pub write-Works :
      (f : Registry → Registry)
      → ((r : Registry) → IsEntered id key r → IsEntered id key (f r))
      → Keeps Works (write f)
  unfolding write
  write-Works f k = record {
    at = λ e. record { entry = k (registry_of e); calls = λ h. Grown-same e.sent };
  }
