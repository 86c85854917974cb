-- ===== src/Api/Webhooks/Delivery.antt =====
-- What a delivery to the route of src/smartdialer/api/webhooks.py does to the ledger.
use smart_dialer.Common.{
  ℕ, ◌≡◌, refl, ap, String, true, false, Option, none, some, List, [], ◌∷◌, arith, inl, inr,
  Bool-cases, is_some, sym,
}
use smart_dialer.Store.{Db}
use smart_dialer.Store.Validity.{IsValid}
use smart_dialer.Providers.Sink.{deliver}
use smart_dialer.System.{Reach}
use smart_dialer.System.Uniqueness.{event_once}
use smart_dialer.Api.Webhooks.{
  Json, Body, Response, is_empty, truthy, get, or_else, printed, as_time, event_id_of,
  event_type_of, provider_call_id_of, ts_of, ingest_fields, receive_webhook,
}

-- The body that a provider posts for an event.
abbrev pub posted : String → String → String → ℕ → String → Body
posted event_id ref etype ts stamp = Body.fields (
    ("event_id", Json.string event_id)
    ∷ ("provider_call_id", Json.string ref)
    ∷ ("event_type", Json.string etype)
    ∷ ("ts", Json.number true ts stamp)
    ∷ [])

is_empty_eq : (s : String) → is_empty s ≡ true → s ≡ ""
is_empty_eq String.[] h = refl
is_empty_eq (String.◌∷◌ c s) h = absurd (ground arith)

stored :
    (provider : String) (p : List (String × Json)) (event_id ref etype : String)
    (ts clock_now now : ℕ) (d : Db)
    → event_id_of p ≡ event_id
    → provider_call_id_of p ≡ Json.string ref
    → event_type_of p ≡ etype
    → as_time (ts_of p clock_now) ≡ some ts
    → is_empty event_id ≡ false
    → receive_webhook provider (Body.fields p) clock_now now d
      ≡ (deliver provider event_id ref etype ts now d, Response.ok)
unfolding receive_webhook deliver
stored provider p event_id ref etype ts clock_now now d a b c t h =
    rw (a, h, receive_webhook) (rw (b, t, c, a, ingest_fields) refl)

kept :
    (s : String) (rest : Json) → is_empty s ≡ false → or_else (Json.string s) rest ≡ Json.string s
kept s rest h = rw h refl

typed : (s : String) → printed (or_else (Json.string s) (Json.string "")) ≡ s
typed s = elim (Bool-cases (is_empty s)) [
  | inl e ↦ rw e (sym (is_empty_eq s e))
  | inr e ↦ rw e refl
]

-- An event with an identifier and a reference that is posted to the route, at a time that is not 0,
-- is stored as the sink of the simulated providers stores it, and answered plainly.
pub posted-deliver :
    (provider event_id ref etype stamp : String) (ts clock_now now : ℕ) (d : Db)
    → is_empty event_id ≡ false
    → is_empty ref ≡ false
    → receive_webhook provider (posted event_id ref etype ts stamp) clock_now now d
      ≡ (deliver provider event_id ref etype ts now d, Response.ok)
posted-deliver provider event_id ref etype stamp ts clock_now now d h k =
    stored provider _ event_id ref etype ts clock_now now d (ap printed (kept event_id _ h))
      (kept ref _ k) (typed etype) refl h

-- A time that is missing is the clock's, and one that is no time is none whenever it comes.
as_time-ts_of :
    (p : List (String × Json)) (t t' : ℕ)
    → is_some (as_time (ts_of p t)) ≡ is_some (as_time (ts_of p t'))
as_time-ts_of p t t' = elim (Bool-cases (truthy (get "ts" p))) [
  | inl e ↦ rw e refl
  | inr e ↦ rw e refl
]

ingest_fields-again :
    (provider : String) (p : List (String × Json)) (ref : Option (Option String))
    (ts ts' : Option ℕ) (now now' : ℕ) {d e : Db}
    → IsValid d
    → is_some ts ≡ is_some ts'
    → Reach (ingest_fields provider p ref ts now d).0 e
    → ingest_fields provider p ref ts' now' e ≡ (e, (ingest_fields provider p ref ts now d).1)
unfolding ingest_fields
ingest_fields-again provider p none ts ts' now now' v s r = refl
ingest_fields-again provider p (some ref) none none now now' v s r = refl
ingest_fields-again provider p (some ref) none (some ts') now now' v s r = absurd (ground arith)
ingest_fields-again provider p (some ref) (some ts) none now now' v s r = absurd (ground arith)
ingest_fields-again provider p (some ref) (some ts) (some ts') now now' v s r =
    ap (λ x. (x.0, Response.ok))
      (event_once provider (event_id_of p) (event_type_of p) (event_type_of p) ref ref ts now ts'
        now' v r)

-- From valid tables: a body that was posted once, and is posted again at any time and after any
-- history, changes nothing, and is answered as it was before.
pub repeated_post :
    (provider : String) (b : Body) (clock_now clock_later now later : ℕ) {d e : Db}
    → IsValid d
    → Reach (receive_webhook provider b clock_now now d).0 e
    → receive_webhook provider b clock_later later e
      ≡ (e, (receive_webhook provider b clock_now now d).1)
unfolding receive_webhook
repeated_post provider Body.unparsable clock_now clock_later now later v r = refl
repeated_post provider Body.other clock_now clock_later now later v r = refl
repeated_post provider (Body.fields p) clock_now clock_later now later v r =
    elim (Bool-cases (is_empty (event_id_of p))) [
      | inl e ↦ rw (e, receive_webhook) refl
      | inr q ↦
          rw (q, receive_webhook)
            (ingest_fields-again provider p _ _ _ now later v
              (as_time-ts_of p clock_now clock_later) (rw (q, receive_webhook) at r))
    ]
