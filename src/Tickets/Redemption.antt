-- ===== src/Tickets/Redemption.antt =====
-- A ticket is good for one connection, and for a minute.
use hyperwake_core.Prelude.{
  ℕ, ◌+◌, ◌<◌, ◌≤◌, String, ◌≡◌, refl, Bool, true, false, not, ◌||◌, Option, none, some, List, [],
  ◌∷◌, all, keep, ltb, arith, str_eq, eq_iff, or_else, string_eq, lookup, insert, remove,
  lookup-remove, lookup-insert, Bool-cases, inl, inr,
}
use hyperwake_core.Records.{Described}
use hyperwake_core.Tickets.{
  Binding, Target, Tickets, local_host, is_loopback, is_port, mint_desktop, mint_ssh, redeem, lease,
  begin, begin_ssh, complete, close, revoke_desktop, revoke_ssh,
}
use hyperwake_core.Tickets.Revocation.{
  Event, minted_desktop, minted_ssh, began, began_ssh, completed, closed, revoked_desktop,
  revoked_ssh, kept_if, step, run,
}

-- The event mints no ticket with this digest.
abbrev pub mints_other : (String → String) → String → Event → Bool
mints_other sha256 key (minted_desktop now ticket id d b) = not (str_eq (sha256 ticket) key)
mints_other sha256 key (minted_ssh now ticket id d b) = not (str_eq (sha256 ticket) key)
mints_other sha256 key _ = true

lookup-keep :
    (key : String) (p : String × Target → Bool) (m : List (String × Target))
    → lookup key m ≡ none
    → lookup key (keep p m) ≡ none
unfolding lookup
lookup-keep key p [] h = refl
lookup-keep key p ((j, x) ∷ m) h = ground (arith, lookup-keep key p m)

lookup-insert_other :
    (key j : String) (x : Target) (m : List (String × Target))
    → str_eq j key ≡ false
    → lookup key m ≡ none
    → lookup key (insert j x m) ≡ none
lookup-insert_other key j x m other h = rw (lookup-insert, other) h

lookup-remove_none :
    (key j : String) (m : List (String × Target))
    → lookup key m ≡ none
    → lookup key (remove j m) ≡ none
lookup-remove_none key j m h = rw lookup-remove (ground arith)

lookup-remove_self : (key : String) (m : List (String × Target)) → lookup key (remove key m) ≡ none
lookup-remove_self key m = rw (lookup-remove, (eq_iff key key).1 refl) refl

-- A lease leaves the tickets that wait.
waiting-lease :
    (key : String) (o : Option Target) (t : Tickets) → (lease key o t).waiting ≡ t.waiting
unfolding lease
waiting-lease key none t = refl
waiting-lease key (some target) t = refl

module _ (sha256 : String → String) (key : String) where
  -- No ticket with the digest waits.
  abbrev IsSpent : Tickets → Type 0
  IsSpent t = lookup key t.waiting ≡ none

  begin-IsSpent :
      (now : ℕ) (ticket : Option String) (t : Tickets)
      → IsSpent t
      → IsSpent (begin sha256 now ticket t)
  unfolding begin redeem
  begin-IsSpent now ticket t h =
      rw (waiting-lease (sha256 (or_else ticket "")))
        (lookup-remove_none key (sha256 (or_else ticket "")) t.waiting h)

  begin_ssh-IsSpent :
      (now : ℕ) (origin : Bool) (ticket : Option String) (t : Tickets)
      → IsSpent t
      → IsSpent (begin_ssh sha256 now origin ticket t)
  unfolding begin_ssh redeem
  begin_ssh-IsSpent now origin none t h = h
  begin_ssh-IsSpent now origin (some ticket) t h =
      rw (waiting-lease (sha256 ticket)) (lookup-remove_none key (sha256 ticket) t.waiting h)

  mint_ssh-IsSpent :
      (now : ℕ) (ticket id : String) (d : Described) (b : Binding) (t : Tickets)
      → str_eq (sha256 ticket) key ≡ false
      → IsSpent t
      → IsSpent (kept_if t (mint_ssh sha256 now ticket id d b t))
  unfolding mint_ssh
  mint_ssh-IsSpent now ticket id d b t other h =
      elim (Bool-cases (not (is_loopback (local_host d.ssh_host)) || not (is_port d.ssh_port))) [
        | inl refused ↦ rw refused h
        | inr private ↦ rw private (
            lookup-insert_other key (sha256 ticket) _ _ other
              (lookup-keep key (λ e. ltb now e.1.expires) t.waiting h))
      ]

  step-IsSpent :
      (e : Event) (t : Tickets)
      → mints_other sha256 key e ≡ true
      → IsSpent t
      → IsSpent (step sha256 e t)
  unfolding step mint_desktop complete close revoke_desktop revoke_ssh
  step-IsSpent (minted_desktop now ticket id d b) t other h =
      lookup-insert_other key (sha256 ticket) _ t.waiting (ground arith) h
  step-IsSpent (minted_ssh now ticket id d b) t other h =
      mint_ssh-IsSpent now ticket id d b t (ground arith) h
  step-IsSpent (began now ticket) t other h = begin-IsSpent now ticket t h
  step-IsSpent (began_ssh now origin ticket) t other h = begin_ssh-IsSpent now origin ticket t h
  step-IsSpent (completed j now validated) t other h = h
  step-IsSpent (closed j) t other h = h
  step-IsSpent (revoked_desktop id) t other h = lookup-keep key _ t.waiting h
  step-IsSpent (revoked_ssh id) t other h = lookup-keep key _ t.waiting h

  run-IsSpent :
      (es : List Event) (t : Tickets)
      → all (mints_other sha256 key) es ≡ true
      → IsSpent t
      → IsSpent (run sha256 es t)
  unfolding run
  run-IsSpent [] t quiet h = h
  run-IsSpent (e ∷ es) t quiet h =
      run-IsSpent es (step sha256 e t) (ground arith) (step-IsSpent e t (ground arith) h)

refused_spent :
    (sha256 : String → String) (later : ℕ) (ticket : String) (t : Tickets)
    → lookup (sha256 ticket) t.waiting ≡ none
    → (redeem sha256 later (some ticket) t).0 ≡ none
unfolding redeem
refused_spent sha256 later ticket t h = rw h refl

-- A ticket that a connection or a tunnel was begun with, whether it was accepted or not, is refused
-- from then on, whatever the ticket modules do in between (completions that fail, closings,
-- revocations, other connections), as long as no ticket with the same digest is minted.
pub redeem_once :
    (sha256 : String → String) (now later : ℕ) (origin : Bool) (ticket : String) (es : List Event)
    (t : Tickets)
    → all (mints_other sha256 (sha256 ticket)) es ≡ true
    → ((redeem sha256 later (some ticket) (run sha256 es (begin sha256 now (some ticket) t))).0
        ≡ none)
      × ((redeem sha256 later
            (some ticket)
            (run sha256 es (begin_ssh sha256 now origin (some ticket) t))).0
          ≡ none)
unfolding begin begin_ssh redeem
redeem_once sha256 now later origin ticket es t quiet = (
  refused_spent sha256 later ticket (run sha256 es (begin sha256 now (some ticket) t)) (
      run-IsSpent sha256 (sha256 ticket) es _ quiet
        (rw (waiting-lease (sha256 ticket)) (lookup-remove_self (sha256 ticket) t.waiting))),
  refused_spent sha256 later ticket (run sha256 es (begin_ssh sha256 now origin (some ticket) t)) (
      run-IsSpent sha256 (sha256 ticket) es _ quiet
        (rw (waiting-lease (sha256 ticket)) (lookup-remove_self (sha256 ticket) t.waiting))),
)

module _ (sha256 : String → String) (now later : ℕ) (ticket id : String) (d : Described)
    (binding : Option Binding) (t : Tickets) where
  -- A new desktop ticket is accepted during the minute after it was minted, and leads to the display
  -- that the runtime named.
  pub redeem-mint_desktop :
      later < now + 60000
      → (redeem sha256 later (some ticket) (mint_desktop sha256 now ticket id d binding t)).0
        ≡ some (record {
          machine_id = id;
          binding = binding;
          revoked = false;
          host = local_host d.display_host;
          port = d.display_port;
          expires = now + 60000;
        })
  unfolding redeem mint_desktop
  redeem-mint_desktop early =
      rw (lookup-insert, (eq_iff (sha256 ticket) (sha256 ticket)).1 refl) (ground arith)

  -- From a minute after it was minted a desktop ticket is refused.
  redeem-mint_desktop_late :
      now + 60000 ≤ later
      → (redeem sha256 later (some ticket) (mint_desktop sha256 now ticket id d binding t)).0 ≡ none
  unfolding redeem mint_desktop
  redeem-mint_desktop_late late =
      rw (lookup-insert, (eq_iff (sha256 ticket) (sha256 ticket)).1 refl) (ground arith)
