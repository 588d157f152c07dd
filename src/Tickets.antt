-- ===== src/Tickets.antt =====
-- The desktop tickets of src/desktop.js and the SSH tickets of src/ssh.js.
--
-- sha256, the time and the random ticket are arguments. What is awaited between two phases of a
-- connection (the binding's `validate`) is an argument of the phase that follows.
--
-- Both modules keep a map from the digest of a ticket to its target, and the set of targets whose
-- transport is pending or connected. Redeeming a ticket takes its target out of the map, so no
-- target is in both at once. A transport is the client's socket and the connection to the guest,
-- each open or not.
pub mod Revocation
pub mod Redemption
use hyperwake_core.Records.{Described}
use hyperwake_core.Prelude.{
  none, some, ◌∷◌, ◌+◌, ◌&&◌, ◌||◌, leb, ltb, or_else, lookup, insert, remove, ℕ, String, Bool,
  true, false, not, Option, List, [], map, str_eq, string_eq, keep, if◌then◌else◌,
}

-- { generation, boot_id }; `validate` is `validateDesktop` at these values.
pub record Binding : Type 0 where
  pub generation : ℕ
  pub boot_id : Option String

pub record Target : Type 0 where
  pub machine_id : String
  pub binding : Option Binding
  pub revoked : Bool
  pub host : String
  pub port : Option ℕ
  pub expires : ℕ

-- A redeemed target, under the digest of its ticket.
pub record Lease : Type 0 where
  pub key : String
  pub target : Target
  pub client_open : Bool
  pub upstream_open : Bool

pub record Tickets : Type 0 where
  pub waiting : List (String × Target)
  pub active : List Lease

abbrev pub no_tickets : Tickets
no_tickets = record { waiting = []; active = [] }

abbrev pub is_of : String → Target → Bool
is_of id t = str_eq t.machine_id id

-- revokeDesktop: target.revoked = true, and both ends are destroyed once the guest is dialled. (A
-- target that is still being validated has no client of its own yet.)
abbrev pub cut_desktop : String → Lease → Lease
cut_desktop id l =
    if is_of id l.target
    then record l {
      target = record l.target { revoked = true };
      client_open = l.client_open && not l.upstream_open;
      upstream_open = false;
    }
    else l

-- revokeSsh: target.revoked = true, and the client's socket and what is dialled are destroyed.
abbrev pub cut_ssh : String → Lease → Lease
cut_ssh id l =
    if is_of id l.target
    then record l {
      target = record l.target { revoked = true };
      client_open = false;
      upstream_open = false;
    }
    else l

-- revokeDesktop(machineId)
unfoldable pub revoke_desktop : String → Tickets → Tickets
revoke_desktop id t = record {
  waiting = keep (λ e. not (is_of id e.1)) t.waiting;
  active = map (cut_desktop id) t.active;
}

-- revokeSsh(id)
unfoldable pub revoke_ssh : String → Tickets → Tickets
revoke_ssh id t = record {
  waiting = keep (λ e. not (is_of id e.1)) t.waiting;
  active = map (cut_ssh id) t.active;
}

-- host === 'host.docker.internal' ? '127.0.0.1' : host
abbrev pub local_host : String → String
local_host host = if str_eq host "host.docker.internal" then "127.0.0.1" else host

-- mintTicket(machineId, described, binding)
unfoldable pub mint_desktop :
    (String → String) → ℕ → String → String → Described → Option Binding → Tickets → Tickets
unfolding insert
mint_desktop sha256 now ticket id d binding t = record t {
  waiting =
      insert (sha256 ticket)
        (record {
          machine_id = id;
          binding = binding;
          revoked = false;
          host = local_host d.display_host;
          port = d.display_port;
          expires = now + 60000;
        })
        t.waiting;
}

-- ['127.0.0.1', '::1', 'localhost'].includes(host)
abbrev pub is_loopback : String → Bool
is_loopback host = str_eq host "127.0.0.1" || str_eq host "::1" || str_eq host "localhost"

abbrev pub is_port : Option ℕ → Bool
is_port none = false
is_port (some p) = leb 1 p && leb p 65535

-- mintSshTicket(id, described, binding); none where it refuses the target with 409.
unfoldable pub mint_ssh :
    (String → String) → ℕ → String → String → Described → Binding → Tickets → Option Tickets
unfolding insert
mint_ssh sha256 now ticket id d binding t =
    let host = local_host d.ssh_host in
    if not (is_loopback host) || not (is_port d.ssh_port)
    then none
    else some (record t {
      waiting =
          insert (sha256 ticket)
            (record {
              machine_id = id;
              binding = some binding;
              revoked = false;
              host = host;
              port = d.ssh_port;
              expires = now + 60000;
            })
            (keep (λ e. ltb now e.1.expires) t.waiting);
    })

abbrev pub unexpired : ℕ → Option Target → Option Target
unexpired now none = none
unexpired now (some target) = if ltb now target.expires then some target else none

-- redeem(ticket): the ticket is spent whether or not it is still valid.
unfoldable pub redeem : (String → String) → ℕ → Option String → Tickets → Option Target × Tickets
unfolding lookup remove
redeem sha256 now ticket t =
    let key = sha256 (or_else ticket "") in
    (unexpired now (lookup key t.waiting), record t { waiting = remove key t.waiting })

-- activeTargets.add(target), with the client's socket open and nothing dialled
unfoldable pub lease : String → Option Target → Tickets → Tickets
lease key none t = t
lease key (some target) t = record t {
  active =
      record { key = key; target = target; client_open = true; upstream_open = false } ∷ t.active;
}

-- The first phase of a connection, up to the await.
unfoldable pub begin : (String → String) → ℕ → Option String → Tickets → Tickets
unfolding redeem lease
begin sha256 now ticket t =
    let (target, t') = redeem sha256 now ticket t in lease (sha256 (or_else ticket "")) target t'

-- Whether the connection may be dialled after the await.
abbrev pub may_dial : ℕ → Bool → Lease → Bool
may_dial now validated l =
    validated && not l.target.revoked && ltb now l.target.expires && l.client_open

-- The first phase of an SSH tunnel: `ticket` is what the path matches, `origin` whether the request
-- has an Origin header.
unfoldable pub begin_ssh : (String → String) → ℕ → Bool → Option String → Tickets → Tickets
unfolding redeem lease
begin_ssh sha256 now origin none t = t
begin_ssh sha256 now origin (some ticket) t =
    let (target, t') = redeem sha256 now (some ticket) t in
    lease (sha256 ticket) (if origin then none else target) t'

abbrev pub is_lease : String → Lease → Bool
is_lease key l = str_eq l.key key

abbrev pub dial : String → ℕ → Bool → Lease → Lease
dial key now validated l =
    if is_lease key l
    then (if may_dial now validated l
        then record l { upstream_open = true }
        else record l { client_open = false })
    else l

-- The second phase: the guest is dialled, or the client is refused and its socket destroyed.
unfoldable pub complete : String → ℕ → Bool → Tickets → Tickets
complete key now validated t = record t { active = map (dial key now validated) t.active }

-- socket.once('close', …): the lease is dropped.
unfoldable pub close : String → Tickets → Tickets
close key t = record t { active = keep (λ l. not (is_lease key l)) t.active }
