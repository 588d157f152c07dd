-- ===== src/Tickets/Revocation.antt =====
-- Revocation of a machine's tickets and connections, whatever follows it.
use hyperwake_core.Prelude.{
  ℕ, String, ◌≡◌, refl, Bool, true, false, not, ◌&&◌, ◌||◌, Option, none, some, List, [], ◌∷◌, map,
  arith, all, keep, insert, remove, lookup, str_eq, string_eq, ltb, or_else, Bool-cases, inl, inr,
}
use hyperwake_core.Records.{Described}
use hyperwake_core.Tickets.{
  Binding, Target, Lease, Tickets, is_of, cut_desktop, cut_ssh, is_lease, dial, may_dial, unexpired,
  mint_desktop, mint_ssh, redeem, lease, begin, begin_ssh, complete, close, revoke_desktop,
  revoke_ssh, local_host, is_loopback, is_port,
}

-- One step of the ticket modules.
pub data Event : Type 0 where
  minted_desktop : ℕ → String → String → Described → Option Binding → Event
  minted_ssh : ℕ → String → String → Described → Binding → Event
  began : ℕ → Option String → Event
  began_ssh : ℕ → Bool → Option String → Event
  completed : String → ℕ → Bool → Event
  closed : String → Event
  revoked_desktop revoked_ssh : String → Event

abbrev pub kept_if : Tickets → Option Tickets → Tickets
kept_if t none = t
kept_if t (some t') = t'

module _ (sha256 : String → String) where
  unfoldable pub step : Event → Tickets → Tickets
  unfolding mint_desktop mint_ssh begin begin_ssh complete close revoke_desktop revoke_ssh
  step (minted_desktop now ticket id d b) t = mint_desktop sha256 now ticket id d b t
  step (minted_ssh now ticket id d b) t = kept_if t (mint_ssh sha256 now ticket id d b t)
  step (began now ticket) t = begin sha256 now ticket t
  step (began_ssh now origin ticket) t = begin_ssh sha256 now origin ticket t
  step (completed key now validated) t = complete key now validated t
  step (closed key) t = close key t
  step (revoked_desktop id) t = revoke_desktop id t
  step (revoked_ssh id) t = revoke_ssh id t

  unfoldable pub run : List Event → Tickets → Tickets
  unfolding step
  run [] t = t
  run (e ∷ es) t = run es (step e t)

-- The event mints no ticket for the machine.
abbrev pub spares : String → Event → Bool
spares id (minted_desktop now ticket machine d b) = not (str_eq machine id)
spares id (minted_ssh now ticket machine d b) = not (str_eq machine id)
spares id _ = true

-- The lease is another machine's, or the guest is not dialled and never will be.
abbrev pub is_shut : String → Lease → Bool
is_shut id l =
    not (is_of id l.target) || (not l.upstream_open && (l.target.revoked || not l.client_open))

abbrev pub is_foreign : String → String × Target → Bool
is_foreign id e = not (is_of id e.1)

-- No ticket of the machine waits, and no connection to it is open.
pub record IsCutOff (id : String) (t : Tickets) : Type 0 where
  pub waiting : all (is_foreign id) t.waiting ≡ true
  pub active : all (is_shut id) t.active ≡ true

module _ {A : Type 0} where
  all-keep : (p q : A → Bool) (xs : List A) → all p xs ≡ true → all p (keep q xs) ≡ true
  all-keep p q [] h = refl
  all-keep p q (x ∷ xs) h = ground (arith, all-keep p q xs)

  all-keep_self : (p : A → Bool) (xs : List A) → all p (keep p xs) ≡ true
  all-keep_self p [] = refl
  all-keep_self p (x ∷ xs) = ground (arith, all-keep_self p xs)

all-insert :
    (id key : String) (target : Target) (m : List (String × Target))
    → is_of id target ≡ false
    → all (is_foreign id) m ≡ true
    → all (is_foreign id) (insert key target m) ≡ true
unfolding insert
all-insert id key target [] other h = ground arith
all-insert id key target ((j, old) ∷ m) other h = ground (arith, all-insert id key target m other)

all-remove :
    (id key : String) (m : List (String × Target))
    → all (is_foreign id) m ≡ true
    → all (is_foreign id) (remove key m) ≡ true
unfolding remove
all-remove id key [] h = refl
all-remove id key ((j, old) ∷ m) h = ground (arith, all-remove id key m)

all-lookup :
    (id key : String) (m : List (String × Target)) (target : Target)
    → all (is_foreign id) m ≡ true
    → lookup key m ≡ some target
    → is_of id target ≡ false
unfolding lookup
all-lookup id key [] target h found = absurd (cc)
all-lookup id key ((j, old) ∷ m) target h found = ground (arith, all-lookup id key m target)

all-cut_desktop :
    (id : String) (ls : List Lease) → all (is_shut id) (map (cut_desktop id) ls) ≡ true
all-cut_desktop id [] = refl
all-cut_desktop id (l ∷ ls) = ground (arith, all-cut_desktop id ls)

all-cut_ssh : (id : String) (ls : List Lease) → all (is_shut id) (map (cut_ssh id) ls) ≡ true
all-cut_ssh id [] = refl
all-cut_ssh id (l ∷ ls) = ground (arith, all-cut_ssh id ls)

module _ (id other : String) (l : Lease) (h : is_shut id l ≡ true) where
  cut_desktop_keeps : is_shut id (cut_desktop other l) ≡ true
  cut_desktop_keeps = elim (Bool-cases (is_of other l.target)) [
    | inl own ↦ rw own (ground arith)
    | inr foreign ↦ rw foreign h
  ]

  cut_ssh_keeps : is_shut id (cut_ssh other l) ≡ true
  cut_ssh_keeps = elim (Bool-cases (is_of other l.target)) [
    | inl own ↦ rw own (ground arith)
    | inr foreign ↦ rw foreign h
  ]

module _ (id key : String) (now : ℕ) (validated : Bool) (l : Lease) (h : is_shut id l ≡ true) where
  dial_keeps : is_shut id (dial key now validated l) ≡ true
  dial_keeps = elim (Bool-cases (is_lease key l)) [
    | inr foreign ↦ rw foreign h
    | inl own ↦ elim (Bool-cases (may_dial now validated l)) [
      | inl may ↦ rw (own, may) (ground arith)
      | inr must_not ↦ rw (own, must_not) (ground arith)
    ]
  ]

all-map :
    {A : Type 0} (p : A → Bool) (f : A → A) (xs : List A)
    → ((x : A) → p x ≡ true → p (f x) ≡ true)
    → all p xs ≡ true
    → all p (map f xs) ≡ true
all-map p f [] keeps h = refl
all-map p f (x ∷ xs) keeps h = ground (arith, keeps x, all-map p f xs keeps)

lease-IsCutOff :
    (id key : String) (o : Option Target) (now : ℕ) (t : Tickets)
    → ((target : Target) → o ≡ some target → is_of id target ≡ false)
    → IsCutOff id t
    → IsCutOff id (lease key (unexpired now o) t)
unfolding lease
lease-IsCutOff id key none now t foreign h = h
lease-IsCutOff id key (some target) now t foreign h = elim (Bool-cases (ltb now target.expires)) [
  | inl fresh ↦
      rw fresh
        (record { waiting = h.waiting; active = ground (arith, h.active, foreign target refl) })
  | inr late ↦ rw late h
]

begin-IsCutOff :
    (sha256 : String → String) (id : String) (now : ℕ) (ticket : Option String) (t : Tickets)
    → IsCutOff id t
    → IsCutOff id (begin sha256 now ticket t)
unfolding begin redeem
begin-IsCutOff sha256 id now ticket t h =
    let key = sha256 (or_else ticket "") in
    lease-IsCutOff id key (lookup key t.waiting) now (record t { waiting = remove key t.waiting })
      (λ target found. all-lookup id key t.waiting target h.waiting found)
      (record { waiting = all-remove id key t.waiting h.waiting; active = h.active })

begin_ssh-IsCutOff :
    (sha256 : String → String) (id : String) (now : ℕ) (origin : Bool) (ticket : Option String)
    (t : Tickets)
    → IsCutOff id t
    → IsCutOff id (begin_ssh sha256 now origin ticket t)
unfolding begin_ssh redeem lease
begin_ssh-IsCutOff sha256 id now origin none t h = h
begin_ssh-IsCutOff sha256 id now false (some ticket) t h =
    unfold begin in begin-IsCutOff sha256 id now (some ticket) t h
begin_ssh-IsCutOff sha256 id now true (some ticket) t h = record {
  waiting = all-remove id (sha256 ticket) t.waiting h.waiting;
  active = h.active;
}

mint_ssh-IsCutOff :
    (sha256 : String → String) (id : String) (now : ℕ) (ticket machine : String) (d : Described)
    (b : Binding) (t : Tickets)
    → str_eq machine id ≡ false
    → IsCutOff id t
    → IsCutOff id (kept_if t (mint_ssh sha256 now ticket machine d b t))
unfolding mint_ssh
mint_ssh-IsCutOff sha256 id now ticket machine d b t other h =
    elim (Bool-cases (not (is_loopback (local_host d.ssh_host)) || not (is_port d.ssh_port))) [
      | inl refused ↦ rw refused h
      | inr private ↦ rw private (record {
        waiting =
            all-insert id (sha256 ticket) _ _ other
              (all-keep (is_foreign id) (λ e. ltb now e.1.expires) t.waiting h.waiting);
        active = h.active;
      })
    ]

step-IsCutOff :
    (sha256 : String → String) (id : String) (e : Event) (t : Tickets)
    → spares id e ≡ true
    → IsCutOff id t
    → IsCutOff id (step sha256 e t)
unfolding step
step-IsCutOff sha256 id (minted_desktop now ticket machine d b) t other h = record {
  waiting = all-insert id (sha256 ticket) _ t.waiting (ground arith) h.waiting;
  active = h.active;
}
step-IsCutOff sha256 id (minted_ssh now ticket machine d b) t other h =
    mint_ssh-IsCutOff sha256 id now ticket machine d b t (ground arith) h
step-IsCutOff sha256 id (began now ticket) t other h = begin-IsCutOff sha256 id now ticket t h
step-IsCutOff sha256 id (began_ssh now origin ticket) t other h =
    begin_ssh-IsCutOff sha256 id now origin ticket t h
step-IsCutOff sha256 id (completed key now validated) t other h = record {
  waiting = h.waiting;
  active =
      all-map (is_shut id) (dial key now validated) t.active (dial_keeps id key now validated)
        h.active;
}
step-IsCutOff sha256 id (closed key) t other h = record {
  waiting = h.waiting;
  active = all-keep (is_shut id) (λ l. not (is_lease key l)) t.active h.active;
}
step-IsCutOff sha256 id (revoked_desktop j) t other h = record {
  waiting = all-keep (is_foreign id) (is_foreign j) t.waiting h.waiting;
  active = all-map (is_shut id) (cut_desktop j) t.active (cut_desktop_keeps id j) h.active;
}
step-IsCutOff sha256 id (revoked_ssh j) t other h = record {
  waiting = all-keep (is_foreign id) (is_foreign j) t.waiting h.waiting;
  active = all-map (is_shut id) (cut_ssh j) t.active (cut_ssh_keeps id j) h.active;
}

run-IsCutOff :
    (sha256 : String → String) (id : String) (es : List Event) (t : Tickets)
    → all (spares id) es ≡ true
    → IsCutOff id t
    → IsCutOff id (run sha256 es t)
unfolding run
run-IsCutOff sha256 id [] t quiet h = h
run-IsCutOff sha256 id (e ∷ es) t quiet h =
    run-IsCutOff sha256 id es (step sha256 e t) (ground arith)
      (step-IsCutOff sha256 id e t (ground arith) h)

-- Once a machine's tickets are revoked, by either module and from whatever state, no ticket of it
-- waits and no connection to it is open or can be completed, whatever redemptions, completions,
-- closings, revocations and mints for other machines follow, in any order, until a new ticket is
-- minted for the machine.
pub revoke-IsCutOff :
    (sha256 : String → String) (id : String) (es : List Event) (t : Tickets)
    → all (spares id) es ≡ true
    → IsCutOff id (run sha256 es (revoke_desktop id t))
      × IsCutOff id (run sha256 es (revoke_ssh id t))
unfolding revoke_desktop revoke_ssh
revoke-IsCutOff sha256 id es t quiet = (
  run-IsCutOff sha256 id es _ quiet (record {
    waiting = all-keep_self (is_foreign id) t.waiting;
    active = all-cut_desktop id t.active;
  }),
  run-IsCutOff sha256 id es _ quiet (record {
    waiting = all-keep_self (is_foreign id) t.waiting;
    active = all-cut_ssh id t.active;
  }),
)
