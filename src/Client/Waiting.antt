-- ===== src/Client/Waiting.antt =====
-- Waiting for a machine comes to an end, and only a ready machine is returned.
use hyperwake_core.Prelude.{
  ℕ, zero, suc, ◌+◌, ◌<◌, ◌≤◌, String, ◌≡◌, Option, none, some, arith, ltb, ltb→lt, str_eq, eq_iff,
  Bool-cases, inl, inr,
}
use hyperwake_core.Json.{Json}
use hyperwake_core.Exec.{Outcome, ok, thrown}
use hyperwake_core.Client.{
  World, verdict, late, seen, wait, wait_for_ready, unless_decided, status_of, is_lost,
}

-- Only a ready machine is returned.
abbrev pub IsReadyOrThrown : Option (Outcome Json) → Type 0
IsReadyOrThrown none = ⊥
IsReadyOrThrown (some (ok machine)) = status_of machine ≡ "ready"
IsReadyOrThrown (some (thrown e)) = Unit

verdict-IsReadyOrThrown :
    (answer : Outcome Json) (again : Option (Outcome Json))
    → IsReadyOrThrown again
    → IsReadyOrThrown (unless_decided (verdict answer) again)
unfolding verdict
verdict-IsReadyOrThrown (thrown e) again h = tt
verdict-IsReadyOrThrown (ok machine) again h =
    elim (Bool-cases (str_eq (status_of machine) "ready")) [
      | inl ready ↦ rw (verdict, ready) ((eq_iff (status_of machine) "ready").0 ready)
      | inr other ↦ elim (Bool-cases (is_lost (status_of machine))) [
        | inl lost ↦ rw (verdict, other, lost) tt
        | inr up ↦ rw (verdict, other, up) h
      ]
    ]

module _ {W : Type 0} (world : World W) (id : String) (interval timeout : ℕ)
    (advances : (w : W) → world.now w < world.now (world.pause interval w))
    (steady : (w : W) → world.now w ≤ world.now (world.get_machine id w).1) where
  wait-IsReadyOrThrown :
      (deadline fuel : ℕ) (last : String) (w : W)
      → 1 ≤ fuel
      → deadline < world.now w + fuel
      → IsReadyOrThrown (wait world id interval timeout deadline fuel last w)
  unfolding wait late
  wait-IsReadyOrThrown deadline zero last w some_fuel enough = absurd (omega arith)
  wait-IsReadyOrThrown deadline (suc fuel) last w some_fuel enough =
      elim (Bool-cases (ltb (world.now w) deadline)) [
        | inr past ↦ rw (wait, past) tt
        | inl early ↦
            let (answer, w') = world.get_machine id w in
            let before = ltb→lt (world.now w) deadline early in
            let again =
              wait-IsReadyOrThrown deadline fuel (seen answer) (world.pause interval w')
                (omega arith) (omega (arith, advances w', steady w)) in
            rw (wait, early) (verdict-IsReadyOrThrown answer _ again)
      ]

  -- Where each pause moves the clock on and a request does not turn it back, waiting for a machine
  -- comes to an end within one round more than the timeout has milliseconds, whatever the engine
  -- answers; and what is returned without an error is a machine whose status is ready.
  pub wait_for_ready-IsReadyOrThrown :
      (w : W) → IsReadyOrThrown (wait_for_ready world id interval timeout (timeout + 1) w)
  unfolding wait_for_ready
  wait_for_ready-IsReadyOrThrown w =
      wait-IsReadyOrThrown (world.now w + timeout) (timeout + 1) "null" w (omega arith)
        (omega arith)
