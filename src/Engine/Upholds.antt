-- ===== src/Engine/Upholds.antt =====
-- Invariants of the registry under the steps of an engine: what guests' requests keep is kept by
-- every step that changes the registry in no other way.
use hyperwake_core.Prelude.{ℕ, String, List, [], ◌∷◌}
use hyperwake_core.Exec.{Failure, Outcome, Exec, pure, throw, lift, gets, ◌>>=◌}
use hyperwake_core.Exec.Keeps.{
  IsPreorder, Keeps, Keeps-pure, Keeps-throw, Keeps-lift, Keeps-gets, Keeps-bind,
}
use hyperwake_core.Registry.{Registry}
use hyperwake_core.Guest.{Guests, GuestMessage, guest_request}
use hyperwake_core.Engine.{
  Engine, Host, Call, registry_of, serve_guests, meanwhile, await, send, describe, list, delay,
  random, clock, write,
}

-- If `Q` holds of the registry before, it holds after.
pub record Upholds (Q : Registry → Type 0) {W : Type 0} (s t : Engine W) : Type 0 where
  pub kept : Q (registry_of s) → Q (registry_of t)

-- No request of a guest breaks `Q`.
abbrev pub IsGuestProof : (Registry → Type 0) → Type 0
IsGuestProof Q =
    (sha256 : String → String) (m : GuestMessage) (g : Guests)
    → Q g.registry
    → Q (guest_request sha256 m g).1.registry

module _ (Q : Registry → Type 0) {W : Type 0} where
  pub Upholds-preorder : IsPreorder (Upholds Q {W = W})
  Upholds-preorder = record {
    here = λ s. record { kept = λ h. h };
    chain = λ s t u a b. record { kept = λ h. b.kept (a.kept h) };
  }

  pub bind-Upholds :
      {A B : Type 0} (m : Exec (Engine W) A) (f : A → Exec (Engine W) B)
      → Keeps (Upholds Q) m
      → ((a : A) → Keeps (Upholds Q) (f a))
      → Keeps (Upholds Q) (m >>= f)
  bind-Upholds = Keeps-bind Upholds-preorder

  pub lift-Upholds : {A : Type 0} (r : Outcome A) → Keeps (Upholds Q {W = W}) (lift r)
  lift-Upholds = Keeps-lift Upholds-preorder

  pub pure-Upholds : {A : Type 0} (a : A) → Keeps (Upholds Q {W = W}) (pure a)
  pure-Upholds = Keeps-pure Upholds-preorder

  pub throw-Upholds : {A : Type 0} (e : Failure) → Keeps (Upholds Q {W = W}) (throw {A = A} e)
  throw-Upholds = Keeps-throw Upholds-preorder

  pub gets-Upholds : {A : Type 0} (f : Engine W → A) → Keeps (Upholds Q {W = W}) (gets f)
  gets-Upholds = Keeps-gets Upholds-preorder

  pub write-Upholds :
      (f : Registry → Registry)
      → ((r : Registry) → Q r → Q (f r))
      → Keeps (Upholds Q {W = W}) (write f)
  unfolding write
  write-Upholds f k = record { at = λ e. record { kept = k (registry_of e) } }

module _ (Q : Registry → Type 0) (guests : IsGuestProof Q) where
  pub serve_guests-upholds :
      (sha256 : String → String) (ms : List GuestMessage) (g : Guests)
      → Q g.registry
      → Q (serve_guests sha256 ms g).registry
  unfolding serve_guests
  serve_guests-upholds sha256 [] g h = h
  serve_guests-upholds sha256 (m ∷ ms) g h =
      serve_guests-upholds sha256 ms (guest_request sha256 m g).1 (guests sha256 m g h)

  module _ {W : Type 0} (host : Host W) where
    meanwhile-Upholds : (w : W) (e : Engine W) → Upholds Q e (meanwhile host w e)
    unfolding meanwhile
    meanwhile-Upholds w e = record {
      kept = serve_guests-upholds host.sha256 (host.arrived w).0 e.guests;
    }

    await-Upholds : {A : Type 0} (call : W → Outcome A × W) → Keeps (Upholds Q) (await host call)
    unfolding await
    await-Upholds call = record { at = λ e. meanwhile-Upholds (call e.world).1 e }

    pub describe-Upholds : (id : String) → Keeps (Upholds Q) (describe host id)
    unfolding describe
    describe-Upholds id = await-Upholds (host.describe id)

    pub list-Upholds : Keeps (Upholds Q) (list host)
    unfolding list
    list-Upholds = await-Upholds host.list

    pub send-Upholds : (c : Call) → Keeps (Upholds Q) (send host c)
    unfolding send await meanwhile
    send-Upholds c = record {
      at = λ e. record {
        kept =
            serve_guests-upholds host.sha256 (host.arrived (host.perform c e.world).1).0 e.guests;
      };
    }

    pub delay-Upholds : (ms : ℕ) → Keeps (Upholds Q) (delay host ms)
    unfolding delay
    delay-Upholds ms = record { at = λ e. meanwhile-Upholds (host.pause ms e.world) e }

    pub random-Upholds : Keeps (Upholds Q) (random host)
    unfolding random
    random-Upholds = record { at = λ e. record { kept = λ h. h } }

    pub clock-Upholds : Keeps (Upholds Q) (clock host)
    unfolding clock
    clock-Upholds = record { at = λ e. record { kept = λ h. h } }
