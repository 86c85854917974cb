-- ===== src/Api/Webhooks.antt =====
-- src/smartdialer/api/webhooks.py: the route that providers post their events to. A request's JSON
-- is parsed outside; what the route uses of a value is whether it is true, its text, and whether
-- the database takes it as a text or as a time.
pub mod Delivery
use text.Mathlib.Text.{◌==◌ as str_eq}
use smart_dialer.Common.{
  ℕ, String, Bool, true, false, not, Option, none, some, List, [], ◌∷◌, codes, if◌then◌else◌,
}
use smart_dialer.Store.{Db}
use smart_dialer.Repo.Events

-- A number with whether it differs from 0, its milliseconds as a time in seconds, and its text; an
-- array or an object with whether it has a member, and its text.
pub data Json : Type 0 where
  null : Json
  boolean : Bool → Json
  number : Bool → ℕ → String → Json
  string : String → Json
  compound : Bool → String → Json

-- `await request.json()`: an exception, an object, or a value without `get`.
pub data Body : Type 0 where
  unparsable : Body
  fields : List (String × Json) → Body
  other : Body

-- The two notes, the plain answer, and the status 500 of an exception.
pub data Response : Type 0 where
  dropped_body dropped_id ok failed : Response

abbrev pub is_empty : String → Bool
is_empty s = elim (codes s) [ [] ↦ true | c ∷ cs ↦ false ]

abbrev pub truthy : Json → Bool
truthy Json.null = false
truthy (Json.boolean b) = b
truthy (Json.number nonzero ms s) = nonzero
truthy (Json.string s) = not (is_empty s)
truthy (Json.compound nonempty s) = nonempty

-- Python's `a or b`.
abbrev pub or_else : Json → Json → Json
or_else a b = if truthy a then a else b

-- `payload.get(key)`
abbrev pub get : String → List (String × Json) → Json
get key [] = Json.null
get key (f ∷ fs) = if str_eq f.0 key then f.1 else get key fs

-- Python's `str`.
abbrev pub printed : Json → String
printed Json.null = "None"
printed (Json.boolean true) = "True"
printed (Json.boolean false) = "False"
printed (Json.number nonzero ms s) = s
printed (Json.string s) = s
printed (Json.compound nonempty s) = s

-- A parameter of type TEXT takes a text or NULL, else the statement is an exception.
abbrev pub as_text : Json → Option (Option String)
as_text Json.null = some none
as_text (Json.string s) = some (some s)
as_text _ = none

-- The parameter of to_timestamp takes a number, as which Python's Booleans serve too.
abbrev pub as_time : Json → Option ℕ
as_time (Json.number nonzero ms s) = some ms
as_time (Json.boolean true) = some 1_000
as_time (Json.boolean false) = some 0
as_time _ = none

abbrev pub event_id_of : List (String × Json) → String
event_id_of p = printed (or_else (get "event_id" p) (or_else (get "id" p) (Json.string "")))

abbrev pub provider_call_id_of : List (String × Json) → Json
provider_call_id_of p =
    or_else (get "provider_call_id" p)
      (or_else (get "call_id" p) (or_else (get "CallUUID" p) (get "RequestUUID" p)))

abbrev pub event_type_of : List (String × Json) → String
event_type_of p = printed (
    or_else (get "event_type" p)
      (or_else (get "status" p) (or_else (get "Status" p) (Json.string ""))))

abbrev pub ts_of : List (String × Json) → ℕ → Json
ts_of p clock_now = or_else (get "ts" p) (Json.number true clock_now "")

-- `events.ingest(…)` with the values that the fields have.
unfoldable pub ingest_fields :
    String → List (String × Json) → Option (Option String) → Option ℕ → ℕ → Db → Db × Response
unfolding Events.ingest
ingest_fields provider p (some ref) (some ts) now db =
    ((Events.ingest provider (event_id_of p) ref (event_type_of p) ts now db).0, Response.ok)
ingest_fields provider p _ _ now db = (db, Response.failed)

unfoldable pub receive_webhook : String → Body → ℕ → ℕ → Db → Db × Response
unfolding ingest_fields
receive_webhook provider Body.unparsable clock_now now db = (db, Response.dropped_body)
receive_webhook provider Body.other clock_now now db = (db, Response.failed)
receive_webhook provider (Body.fields p) clock_now now db =
    if is_empty (event_id_of p)
    then (db, Response.dropped_id)
    else ingest_fields provider p (as_text (provider_call_id_of p)) (as_time (ts_of p clock_now))
        now db
