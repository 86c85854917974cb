-- ===== src/Repo/Calls/Keeping.antt =====
-- Every statement of src/smartdialer/repo/calls.py keeps the tables valid.
use smart_dialer.Common.{
  ℕ, ◌≡◌, refl, inl, inr, String, Option, none, some, arith, Option-cases, find, subst, some_inj,
}
use smart_dialer.Domain.Enums.{CallState}
use smart_dialer.Store.{IdempotencyKey, Db}
use smart_dialer.Store.Keeping.{Keeps, update_calls, insert_call}
use smart_dialer.Repo.Calls.{create, advance, fail, cancel, cancel_if_not_answered, has_key}

pub advance-Keeps :
    (call_id : ℕ) (s : CallState) (ref : Option String) (lease : Option ℕ) (reason : Option String)
    (now : ℕ) (d : Db)
    → Keeps d (advance call_id s ref lease reason now d).0
unfolding advance
advance-Keeps call_id s ref lease reason now =
    update_calls _ _ (λ c v e. (ground arith, ground arith)) (λ c. refl)

pub fail-Keeps :
    (call_id : ℕ) (reason : String) (now : ℕ) (d : Db) → Keeps d (fail call_id reason now d).0
unfolding fail
fail-Keeps call_id reason now = advance-Keeps call_id CallState.failed none none (some reason) now

pub cancel-Keeps :
    (call_id : ℕ) (reason : String) (now : ℕ) (d : Db) → Keeps d (cancel call_id reason now d).0
unfolding cancel
cancel-Keeps call_id reason now =
    advance-Keeps call_id CallState.cancelled none none (some reason) now

pub cancel_if_not_answered-Keeps :
    (call_id : ℕ) (reason : String) (now : ℕ) (d : Db)
    → Keeps d (cancel_if_not_answered call_id reason now d).0
unfolding cancel_if_not_answered
cancel_if_not_answered-Keeps call_id reason now =
    update_calls _ _ (λ c v e. (ground arith, ground arith)) (λ c. refl)

pub create-Keeps :
    (campaign_id agent_id borrower_id : ℕ) (provider : String) (attempt_no : ℕ)
    (idem : IdempotencyKey) (worker : String) (lease_until : ℕ) (d : Db) {r : Db × ℕ}
    → create campaign_id agent_id borrower_id provider attempt_no idem worker lease_until d ≡ some r
    → Keeps d r.0
unfolding create
create-Keeps campaign_id agent_id borrower_id provider attempt_no idem worker lease_until d {r} e =
    elim (Option-cases (find (has_key idem) d.calls)) [
      | inl q ↦
          subst (λ z. Keeps d z.0) (some_inj (rw (q, create) at e))
            (insert_call _ d (ground arith) refl)
      | inr q ↦ absurd (ground arith)
    ]
