-- ===== src/Tests/Transports.antt =====
-- Tickets, frames, the host inspection, registrations and deletes, run on small inputs.
use hyperwake_core.Prelude.{
  ℕ, String, ◌≡◌, ◌≤◌, str_eq, refl, arith, true, false, Option, none, some, List, [], ◌∷◌, ◌+◌,
  map, nat_beq, length, if◌then◌else◌,
}
use hyperwake_core.Json.{Json, field, end, cons, nil, obj, str, member, as_string}
use hyperwake_core.Records.{Record}
use hyperwake_core.Registry
use hyperwake_core.Guest.{registered, register, find_by_registration_token}
use hyperwake_core.Guest.Enrolment.{register_first}
use hyperwake_core.Tickets.{
  Tickets, no_tickets, mint_desktop, redeem, begin, begin_ssh, revoke_desktop, revoke_ssh,
}
use hyperwake_core.Tickets.Revocation.{Event, began, completed, run, IsCutOff, revoke-IsCutOff}
use hyperwake_core.Tickets.Redemption.{redeem_once, redeem-mint_desktop}
use hyperwake_core.Preflight.{Facts, inspect_host}
use hyperwake_core.Preflight.Reasons.{IsMeasured, inspect_host-IsMeasured}
use hyperwake_core.Frames.{receive_all, Incoming, unparsable, null_frame, message, Handled, result}
use hyperwake_core.Frames.Chunks.{lines_of, concat, receive_all-lines_of}
use hyperwake_core.Text.{units_of}
use hyperwake_core.Admission.{host_token}
use hyperwake_core.Admission.Tokens.{host_token-distinct}
use hyperwake_core.Exec.{ok}
use hyperwake_core.Client.{World, wait_for_ready}
use hyperwake_core.Client.Waiting.{IsReadyOrThrown, wait_for_ready-IsReadyOrThrown}
use hyperwake_core.Server.Adoption.{adopted_as, get-reconcile}
use hyperwake_core.Server.{reconcile}
use hyperwake_core.Tests.Sample.{
  machine_id, running_machine, local_record, guests_with, registry_with,
}

abbrev self : String → String
self s = s

abbrev minted : Tickets
minted = mint_desktop self 1000 "ticket" machine_id running_machine none no_tickets

abbrev visit : List Event
visit = began 2000 (some "ticket") ∷ completed "ticket" 3000 true ∷ []

revoke-IsCutOff_example :
    IsCutOff machine_id (run self visit (revoke_desktop machine_id minted))
    × IsCutOff machine_id (run self visit (revoke_ssh machine_id minted))
revoke-IsCutOff_example = revoke-IsCutOff self machine_id visit minted refl

redeem_once_example :
    ((redeem self 3000 (some "ticket") (run self visit (begin self 2000 (some "ticket") minted))).0
      ≡ none)
    × ((redeem self 3000
          (some "ticket")
          (run self visit (begin_ssh self 2000 false (some "ticket") minted))).0
        ≡ none)
redeem_once_example = redeem_once self 2000 3000 false "ticket" visit minted refl

redeem-mint_desktop_example :
    (redeem self 60999 (some "ticket") minted).0
    ≡ some (record {
      machine_id = machine_id;
      binding = none;
      revoked = false;
      host = "127.0.0.1";
      port = some 5900;
      expires = 61000;
    })
redeem-mint_desktop_example =
    redeem-mint_desktop self 1000 60999 "ticket" machine_id running_machine none no_tickets
      (ground arith)

abbrev linux_box : Facts
linux_box = record {
  platform = "linux";
  arch = "x64";
  python = true;
  docker = false;
  ssh = true;
  kvm = true;
  image = true;
  image_path = "/image";
  override = none;
  exists = λ p. false;
  runs = λ p. true;
  which = λ p. p;
  accelerators = λ q. [];
  devices = λ q. none;
}

inspect_host-IsMeasured_example :
    IsMeasured linux_box
    × (linux_box.python ≡ true)
    × (linux_box.ssh ≡ true)
    × (linux_box.image ≡ true)
unfolding inspect_host
inspect_host-IsMeasured_example = inspect_host-IsMeasured linux_box refl

-- A decoding: three bytes are a text with a newline in it, and any others a brace.
abbrev spelt_out : List ℕ → String
spelt_out bs = if nat_beq (length bs) 3 then "}\n[" else "{"

receive_all-lines_of_example :
    receive_all spelt_out "" ((1 ∷ []) ∷ (2 ∷ 10 ∷ 3 ∷ []) ∷ (4 ∷ []) ∷ [])
    ≡ lines_of (concat (map spelt_out ((1 ∷ []) ∷ (2 ∷ 10 ∷ 3 ∷ []) ∷ (4 ∷ []) ∷ [])))
receive_all-lines_of_example =
    receive_all-lines_of spelt_out ((1 ∷ []) ∷ (2 ∷ 10 ∷ 3 ∷ []) ∷ (4 ∷ []) ∷ [])

receive_all_runs :
    receive_all spelt_out "" ((1 ∷ []) ∷ (2 ∷ 10 ∷ 3 ∷ []) ∷ (4 ∷ []) ∷ []) ≡ ("{}" ∷ [], "[{")
unfolding receive_all
receive_all_runs = refl

abbrev methods : String → Option (Json → ℕ → Handled × ℕ)
methods name = some (λ params n. (result none, n + 1))

-- A session that ends at a line null: the request behind it is not answered.
abbrev session : List Incoming
session =
    unparsable
    ∷ message (some (str "a")) "ping" Json.null
    ∷ message none "note" Json.null
    ∷ null_frame
    ∷ message (some (str "b")) "ping" Json.null
    ∷ []

abbrev enrolment : Json
enrolment = obj (field "registration_token" (str "registration") end)

abbrev bare_record : Record
bare_record = record local_record { machine_token_hash = none }

register_first_example :
    (register self 5 "new" enrolment (guests_with bare_record)).0 ≡ registered "new" machine_id true
unfolding find_by_registration_token member as_string Registry.get Registry.all
register_first_example =
    register_first self 5 "new" enrolment (guests_with bare_record) bare_record refl bare_record
      refl refl refl

abbrev patient : World ℕ
patient = record {
  now = λ w. w;
  get_machine = λ id w. (ok (obj (field "status" (str "ready") end)), w);
  pause = λ ms w. w + 1;
}

wait_for_ready-IsReadyOrThrown_example :
    IsReadyOrThrown (wait_for_ready patient machine_id 1000 5 6 100)
wait_for_ready-IsReadyOrThrown_example =
    wait_for_ready-IsReadyOrThrown patient machine_id 1000 5 (λ w. omega arith) (λ w. omega arith)
      100

get-reconcile_example :
    Registry.get (reconcile 7 ("other" ∷ []) (registry_with local_record)) "other"
    ≡ adopted_as 7
        (Registry.all (registry_with local_record))
        ("other" ∷ [])
        "other"
        (Registry.get (registry_with local_record) "other")
get-reconcile_example = get-reconcile 7 ("other" ∷ []) (registry_with local_record) "other"

abbrev long_token : String
long_token = "0123456789abcdef0123456789abcdef"

host_token-distinct_example : (32 ≤ units_of long_token) × (str_eq long_token "operator" ≡ false)
unfolding host_token
host_token-distinct_example =
    host_token-distinct true (some long_token) none "minted" "operator" long_token refl

abbrev manifest : Json
manifest = obj (
    field "artifacts"
      (Json.arr (cons (obj (field "name" (str "root.ext4") (field "sha256" (str "ab") end))) nil))
      end)
