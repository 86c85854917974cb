-- ===== src/Tests/ApiTests.antt =====
-- Posts to the webhook route, and texts of keys.
use smart_dialer.Common.{◌≡◌, ◌↔◌, refl, some, true, [], ◌∷◌, codes}
use smart_dialer.Store.{IdempotencyKey}
use smart_dialer.Repo.Agents
use smart_dialer.Repo.Calls.{same_key}
use smart_dialer.Providers.Sink.{deliver}
use smart_dialer.Ids.{idempotency_key}
use smart_dialer.Ids.RoundTrip.{text_of, parse_key, parse_key-idempotency_key}
use smart_dialer.System.{Step, Reach}
use smart_dialer.Api.Webhooks.{Json, Body, Response, receive_webhook}
use smart_dialer.Api.Webhooks.Delivery.{posted, posted-deliver, repeated_post}
use smart_dialer.Tests.Samples.{sample, sample-IsValid}

abbrev key : IdempotencyKey
key = record { campaign = 12; borrower = 305; attempt = 0 }

abbrev other_key : IdempotencyKey
other_key = record { campaign = 123; borrower = 5; attempt = 0 }

key_text : text_of key ≡ codes "12:305:0"
unfolding idempotency_key
key_text = refl

parse_key-idempotency_key_example :
    (parse_key (text_of key) ≡ some key)
    × ((text_of key ≡ text_of other_key) ↔ (same_key key other_key ≡ true))
parse_key-idempotency_key_example = parse_key-idempotency_key key other_key

posted-deliver_example :
    receive_webhook "mock_a" (posted "e-9" "P-1" "answered" 61_000 "61") 61_500 61_700 sample
    ≡ (deliver "mock_a" "e-9" "P-1" "answered" 61_000 61_700 sample, Response.ok)
posted-deliver_example =
    posted-deliver "mock_a" "e-9" "P-1" "answered" "61" 61_000 61_500 61_700 sample refl refl

-- A body without a time, posted again after agent 2 has logged out.
abbrev status_only : Body
status_only = Body.fields (
    ("id", Json.number true 7_000 "7")
    ∷ ("CallUUID", Json.string "P-1")
    ∷ ("Status", Json.string "ringing")
    ∷ [])

repeated_post_example :
    let e =
      (Agents.logout 2 70_000 (receive_webhook "plivo" status_only 61_000 61_000 sample).0).0 in
    receive_webhook "plivo" status_only 99_000 99_000 e
    ≡ (e, (receive_webhook "plivo" status_only 61_000 61_000 sample).1)
repeated_post_example =
    repeated_post "plivo" status_only 61_000 99_000 61_000 99_000 sample-IsValid
      (Reach.next Reach.here (Step.logout 2 70_000))

-- An answer other than 200: a body that is no object, and a reference that is a number.
no_object : (receive_webhook "plivo" Body.other 1 1 sample).1 ≡ Response.failed
unfolding receive_webhook
no_object = refl

numeric_ref :
    (receive_webhook "plivo"
      (Body.fields (("event_id", Json.string "e-1") ∷ ("call_id", Json.number true 7_000 "7") ∷ []))
      1
      1
      sample).1
    ≡ Response.failed
unfolding receive_webhook
numeric_ref = refl
