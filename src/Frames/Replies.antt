-- ===== src/Frames/Replies.antt =====
-- Who is answered, and in which order.
use hyperwake_core.Prelude.{Bool, true, false, none, some, List, [], ◌∷◌}
use hyperwake_core.Json.{Json}
use hyperwake_core.Frames.{Incoming, unparsable, null_frame, message, Answer, replied, failed}

abbrev pub answer_id : Answer → Json
answer_id (replied id v) = id
answer_id (failed id code text) = id

-- Whom the server answers: a request by its id, an unreadable line by null, and a notification not at
-- all, up to the first line that is null.
abbrev pub awaited : List Incoming → List Json
awaited [] = []
awaited (unparsable ∷ ms) = Json.null ∷ awaited ms
awaited (null_frame ∷ ms) = []
awaited (message none method params ∷ ms) = awaited ms
awaited (message (some id) method params ∷ ms) = id ∷ awaited ms

-- Whether a message is the JSON text null.
abbrev pub is_null : Incoming → Bool
is_null null_frame = true
is_null _ = false
