-- ===== src/Admission/Tokens.antt =====
-- The token of the host API, and the desktop's binding.
use hyperwake_core.Prelude.{
  ◌≤◌, String, ◌≡◌, Bool, true, false, Option, none, some, arith, str_eq, eq_iff,
}
use hyperwake_core.Exec.{Outcome, ok, thrown, and_then}
use hyperwake_core.Text.{units_of}
use hyperwake_core.Guest.{is_set}
use hyperwake_core.Json.{Json}
use hyperwake_core.Admission.{
  host_token, chosen_token, distinct, current_image, identify, compared, image_status,
}

chosen :
    (o : Outcome String) (operator token : String)
    → and_then o (distinct operator) ≡ ok (some token)
    → (32 ≤ units_of token) × (str_eq token operator ≡ false)
chosen (ok t) operator token h = ground arith
chosen (thrown e) operator token h = absurd (cc)

-- The host API never takes a token of fewer than 32 characters, nor the operator's own, wherever
-- the token came from.
pub host_token-distinct :
    (enabled : Bool) (configured file : Option String) (minted operator token : String)
    → host_token enabled configured file minted operator ≡ ok (some token)
    → (32 ≤ units_of token) × (str_eq token operator ≡ false)
unfolding host_token
host_token-distinct false configured file minted operator token h = absurd (ground arith)
host_token-distinct true configured file minted operator token h =
    chosen (chosen_token configured file minted) operator token h

compared-current :
    (a b : Option String) → compared a b ≡ current_image → (a ≡ b) × (is_set a ≡ true)
compared-current none b h = absurd (ground arith)
compared-current (some a) none h = absurd (ground arith)
compared-current (some a) (some b) h = (ground (arith, eq_iff a b), ground arith)

-- An image is called current only if the recorded manifest and the published one name one digest of
-- the root filesystem, which is not empty, whatever version they give.
image_status-current :
    (installed published : Json)
    → image_status (some installed) (some published) ≡ current_image
    → ((identify published).digest ≡ (identify installed).digest)
      × (is_set (identify published).digest ≡ true)
unfolding image_status
image_status-current installed published h =
    compared-current (identify published).digest (identify installed).digest h
