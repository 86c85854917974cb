-- ===== src/Providers/Plivo.antt =====
-- src/smartdialer/providers/plivo.py: a provider behind an HTTP service. The service is an argument:
-- what a request comes to.
pub mod Requests
use text.Mathlib.Text.{◌==◌ as str_eq}
use smart_dialer.Common.{
  ℕ, String, Bool, true, false, not, ◌&&◌, Option, none, some, if◌then◌else◌, leb, joined, numeral,
}

-- A setting that is missing is the empty text: `or` and `not` take None and "" alike.
pub record PlivoProvider : Type 0 where
  pub auth_id : String
  pub auth_token : String
  pub answer_url : String

pub record CallPayload : Type 0 where
  pub from_number : String
  pub to_number : String
  pub answer_url : String
  pub answer_method : String

-- The two fields that the code reads of the answer's JSON.
pub record Reply : Type 0 where
  pub status_code : ℕ
  pub text : String
  pub request_uuid : Option String
  pub call_uuid : Option String

-- httpx: a timeout, another error with its text, or an answer.
pub data Answer : Type 0 where
  timed_out : Answer
  broken : String → Answer
  replied : Reply → Answer

-- ProviderTimeout, ProviderError, and the identifier that place_call returns.
pub data Result : Type 0 where
  timeout : String → Result
  error : String → Result
  placed : String → Result

abbrev pub is_set : String → Bool
is_set s = not (str_eq s "")

abbrev pub or_empty : Option String → String
or_empty none = ""
or_empty (some s) = s

-- `data.get("request_uuid") or data.get("call_uuid", "")`
abbrev pub identifier_of : Reply → String
identifier_of r =
    let second = or_empty r.call_uuid in
    if is_set (or_empty r.request_uuid) then or_empty r.request_uuid else second

abbrev pub call_url : String → String
call_url auth_id = joined "https://api.plivo.com/v1/Account/" (joined auth_id "/Call/")

-- From the `try` on.
unfoldable pub result_of : Answer → Result
result_of Answer.timed_out = Result.timeout "plivo"
result_of (Answer.broken e) = Result.error e
result_of (Answer.replied r) =
    if leb 400 r.status_code
    then Result.error (joined "plivo " (numeral r.status_code (joined ": " r.text)))
    else Result.placed (identifier_of r)

unfoldable pub place_call :
    (String → CallPayload → Answer) → PlivoProvider → String → String → Result
unfolding result_of
place_call post p from_number to_number =
    if is_set p.auth_id && is_set p.auth_token && is_set p.answer_url
    then result_of (
        post (call_url p.auth_id) (record {
          from_number = from_number;
          to_number = to_number;
          answer_url = p.answer_url;
          answer_method = "POST";
        }))
    else Result.error "plivo not configured"

-- cancel: the URL that is deleted, if there is anyone to ask.
unfoldable pub cancel : PlivoProvider → String → Option String
cancel p provider_call_id =
    if is_set p.auth_id && is_set p.auth_token
    then some (joined (call_url p.auth_id) (joined provider_call_id "/"))
    else none
