-- ===== src/Providers/Plivo/Requests.antt =====
-- When src/smartdialer/providers/plivo.py has placed a call.
use smart_dialer.Common.{
  ◌≡◌, ◌<◌, refl, ap, sym, String, true, ◌&&◌, Bool-cases, inl, inr, leb, arith,
}
use smart_dialer.Providers.Plivo.{
  PlivoProvider, CallPayload, Reply, Answer, Result, is_set, identifier_of, call_url, result_of,
  place_call,
}

-- The request of a call.
abbrev payload_of : PlivoProvider → String → String → CallPayload
payload_of p from_number to_number = record {
  from_number = from_number;
  to_number = to_number;
  answer_url = p.answer_url;
  answer_method = "POST";
}

abbrev placed_as : Result → String
placed_as (Result.placed s) = s
placed_as _ = ""

result_of_placed :
    (a : Answer) (s : String)
    → result_of a ≡ Result.placed s
    → (r : Reply) × (a ≡ Answer.replied r) × (r.status_code < 400) × (s ≡ identifier_of r)
unfolding result_of
result_of_placed Answer.timed_out s e = absurd (ground arith)
result_of_placed (Answer.broken t) s e = absurd (ground arith)
result_of_placed (Answer.replied r) s e = elim (Bool-cases (leb 400 r.status_code)) [
  | inl q ↦ absurd (ground (arith, e, q))
  | inr q ↦
      let placed : Result.placed (identifier_of r) ≡ Result.placed s = ground (arith, e, q) in
      (r, refl, ground arith, sym (ap placed_as placed))
]

-- A call that is placed was asked of the service with all settings there, and the answer's status is
-- no error and its identifier the one returned.
place_call-placed :
    (post : String → CallPayload → Answer) (p : PlivoProvider) (from_number to_number s : String)
    → place_call post p from_number to_number ≡ Result.placed s
    → (is_set p.auth_id && is_set p.auth_token && is_set p.answer_url ≡ true)
      × (r : Reply) × (post (call_url p.auth_id) (payload_of p from_number to_number)
          ≡ Answer.replied r)
      × (r.status_code < 400)
      × (s ≡ identifier_of r)
unfolding place_call
place_call-placed post p from_number to_number s e =
    elim (Bool-cases (is_set p.auth_id && is_set p.auth_token && is_set p.answer_url)) [
      | inl q ↦
          let sent : result_of (post (call_url p.auth_id) (payload_of p from_number to_number))
              ≡ Result.placed s =
            ground (arith, e, q) in
          let k =
            result_of_placed (post (call_url p.auth_id) (payload_of p from_number to_number)) s
              sent in
          (q, k.0, k.1, k.2, k.3)
      | inr q ↦ absurd (ground (arith, e, q))
    ]
