-- ===== src/Repo/Borrowers.antt =====
-- src/smartdialer/repo/borrowers.py: claiming, releasing and rescheduling borrowers.
pub mod Keeping
pub mod Precedence
use text.Mathlib.Text.{◌==◌ as str_eq}
use smart_dialer.Common.{
  ◌++◌, find, ℕ, ◌+◌, String, Bool, true, false, not, ◌&&◌, Option, none, some, List, [], ◌∷◌, map,
  if◌then◌else◌, leb, ◌==◌, expired_at, select, update_where, take, order_by,
}
use smart_dialer.Domain.Enums.{BorrowerState, is_pending, is_locked, CallState}
use smart_dialer.Store.{Borrower, Db}

abbrev pub has_id : ℕ → Borrower → Bool
has_id borrower_id b = b.id == borrower_id

-- The candidates of CLAIM_BATCH: ORDER BY priority, next_eligible_at.
abbrev pub dialable : (ℕ → Bool) → ℕ → ℕ → Borrower → Bool
dialable locked campaign_id now b =
    b.campaign_id == campaign_id
    && is_pending b.state
    && leb b.next_eligible_at now
    && not (locked b.id)

unfoldable pub candidates : (ℕ → Bool) → ℕ → ℕ → ℕ → Db → List Borrower
candidates locked campaign_id n now db = take n (
    order_by (λ b. b.priority)
      (order_by (λ b. b.next_eligible_at) (select (dialable locked campaign_id now) db.borrowers)))

-- `b.id = cand.id` for some candidate.
abbrev pub among : List Borrower → Borrower → Bool
among [] b = false
among (c ∷ cs) b = if b.id == c.id then true else among cs b

abbrev pub locked_for : String → ℕ → Borrower → Borrower
locked_for worker lease_until b = record b {
  state = BorrowerState.locked;
  locked_by = some worker;
  locked_until = some lease_until;
}

-- CLAIM_BATCH: the claimed rows, as they are after the update.
unfoldable pub claim_batch : (ℕ → Bool) → ℕ → ℕ → String → ℕ → ℕ → Db → Db × List Borrower
unfolding candidates
claim_batch locked campaign_id n worker lease_until now db =
    let cand = candidates locked campaign_id n now db in
    (
      record db {
        borrowers = update_where (among cand) (locked_for worker lease_until) db.borrowers;
      },
      map (locked_for worker lease_until) (select (among cand) db.borrowers),
    )

abbrev pub first_row {ℓ} : {A : Type ℓ} → List A → Option A
first_row [] = none
first_row (x ∷ xs) = some x

unfoldable pub claim_one : (ℕ → Bool) → ℕ → String → ℕ → ℕ → Db → Db × Option Borrower
unfolding claim_batch
claim_one locked campaign_id worker lease_until now db =
    let (db', rows) = claim_batch locked campaign_id 1 worker lease_until now db in
    (db', first_row rows)

abbrev pub unlocked : Borrower → Borrower
unlocked b = record b { state = BorrowerState.pending; locked_by = none; locked_until = none }

unfoldable pub release : ℕ → Db → Db
release borrower_id db = record db {
  borrowers = update_where (has_id borrower_id) unlocked db.borrowers;
}

-- The assignments of RESCHEDULE.
abbrev pub rescheduled : ℕ → ℕ → Borrower → Borrower
rescheduled backoff_s now b = record b {
  attempt_count = b.attempt_count + 1;
  state =
      if leb b.max_attempts (b.attempt_count + 1)
      then BorrowerState.exhausted
      else BorrowerState.pending;
  next_eligible_at = now + backoff_s;
  locked_by = none;
  locked_until = none;
}

unfoldable pub reschedule : ℕ → ℕ → ℕ → Db → Db
reschedule borrower_id backoff_s now db = record db {
  borrowers = update_where (has_id borrower_id) (rescheduled backoff_s now) db.borrowers;
}

abbrev pub done_with : Borrower → Borrower
done_with b = record b {
  attempt_count = b.attempt_count + 1;
  state = BorrowerState.done;
  locked_by = none;
  locked_until = none;
}

unfoldable pub mark_done : ℕ → Db → Db
mark_done borrower_id db = record db {
  borrowers = update_where (has_id borrower_id) done_with db.borrowers;
}

unfoldable pub on_call_terminal : ℕ → CallState → ℕ → ℕ → Db → Db
unfolding mark_done reschedule
on_call_terminal borrower_id CallState.completed backoff_s now db = mark_done borrower_id db
on_call_terminal borrower_id _ backoff_s now db = reschedule borrower_id backoff_s now db

-- The WHERE clause of RECLAIM_EXPIRED_LOCKS.
abbrev pub lock_expired : ℕ → Borrower → Bool
lock_expired now b = is_locked b.state && expired_at now b.locked_until

unfoldable pub reclaim_expired_locks : ℕ → Db → Db × List Borrower
reclaim_expired_locks now db = (
  record db { borrowers = update_where (lock_expired now) unlocked db.borrowers },
  map unlocked (select (lock_expired now) db.borrowers),
)

-- A new borrower has the column defaults. `str_eq` is the test of UNIQUE (campaign_id, phone).
abbrev pub new_borrower : ℕ → ℕ → String → ℕ → Borrower
new_borrower borrower_id campaign_id phone now = record {
  id = borrower_id;
  campaign_id = campaign_id;
  phone = phone;
  priority = 100;
  state = BorrowerState.pending;
  attempt_count = 0;
  max_attempts = 3;
  next_eligible_at = now;
  locked_by = none;
  locked_until = none;
}

abbrev pub same_phone : ℕ → String → Borrower → Bool
same_phone campaign_id phone b = b.campaign_id == campaign_id && str_eq b.phone phone

unfoldable pub seed_one : ℕ → String → ℕ → Db → Db
seed_one campaign_id phone now db = elim (find (same_phone campaign_id phone) db.borrowers) [
  | some _ ↦ db
  | none ↦ record db {
    borrowers = db.borrowers ++ new_borrower db.next_borrower campaign_id phone now ∷ [];
    next_borrower = db.next_borrower + 1;
  }
]

-- seed_many: `executemany` of an INSERT … ON CONFLICT DO NOTHING.
unfoldable pub seed_many : ℕ → List String → ℕ → Db → Db
unfolding seed_one
seed_many campaign_id [] now db = db
seed_many campaign_id (phone ∷ phones) now db =
    seed_many campaign_id phones now (seed_one campaign_id phone now db)
