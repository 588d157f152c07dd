-- ===== src/Exec/Keeps.antt =====
-- Invariants of requests: a relation between the states before and after, one rule for each way
-- to build a request.
use hyperwake_core.Prelude.{Bool, true, false, if◌then◌else◌}
use hyperwake_core.Exec.{
  Failure, Outcome, ok, thrown, Exec, pure, throw, lift, gets, attempt, continue, ◌>>=◌,
}

-- A relation between states that may be chained.
pub record IsPreorder {S : Type 0} (R : S → S → Type 0) : Type 0 where
  pub here : (s : S) → R s s
  pub chain : (s t u : S) → R s t → R t u → R s u

-- Whatever `m` answers, the state after it is related to the state before.
pub record Keeps {S A : Type 0} (R : S → S → Type 0) (m : Exec S A) : Type 0 where
  pub at : (s : S) → R s (m s).1

module _ {S A : Type 0} {R : S → S → Type 0} (o : IsPreorder R) where
  pub Keeps-pure : (a : A) → Keeps R (pure a)
  unfolding pure
  Keeps-pure a = record { at = λ s. o.here s }

  pub Keeps-throw : (e : Failure) → Keeps R (throw {A = A} e)
  unfolding throw
  Keeps-throw e = record { at = λ s. o.here s }

  pub Keeps-lift : (r : Outcome A) → Keeps R (lift r)
  unfolding lift
  Keeps-lift r = record { at = λ s. o.here s }

  pub Keeps-gets : (f : S → A) → Keeps R (gets f)
  unfolding gets
  Keeps-gets f = record { at = λ s. o.here s }

module _ {S A : Type 0} {R : S → S → Type 0} where
  pub Keeps-attempt : (m : Exec S A) → Keeps R m → Keeps R (attempt m)
  unfolding attempt
  Keeps-attempt m k = record { at = λ s. k.at s }

  pub Keeps-if : (b : Bool) (m n : Exec S A) → Keeps R m → Keeps R n → Keeps R (if b then m else n)
  Keeps-if true m n km kn = km
  Keeps-if false m n km kn = kn

module _ {S A B : Type 0} {R : S → S → Type 0} (o : IsPreorder R) where
  Keeps-continue :
      (r : Outcome A) (f : A → Exec S B) → ((a : A) → Keeps R (f a)) → Keeps R (continue r f)
  Keeps-continue (ok a) f kf = kf a
  Keeps-continue (thrown e) f kf = record { at = λ s. o.here s }

  pub Keeps-bind :
      (m : Exec S A) (f : A → Exec S B) → Keeps R m → ((a : A) → Keeps R (f a)) → Keeps R (m >>= f)
  unfolding ◌>>=◌
  Keeps-bind m f km kf = record {
    at =
        λ s. o.chain s (m s).1 ((m >>= f) s).1 (km.at s) ((Keeps-continue (m s).0 f kf).at (m s).1);
  }
