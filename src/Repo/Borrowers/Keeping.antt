-- ===== src/Repo/Borrowers/Keeping.antt =====
-- Every statement of src/smartdialer/repo/borrowers.py keeps the tables valid.
use smart_dialer.Common.{List, [], ◌∷◌, Option-cases, find, inl, inr, ℕ, refl, String, Bool, arith}
use smart_dialer.Domain.Enums.{CallState}
use smart_dialer.Store.{Db}
use smart_dialer.Store.Keeping.{Keeps, Keeps-refl, Keeps-trans, update_borrowers, insert_borrower}
use smart_dialer.Repo.Borrowers.{
  claim_batch, claim_one, release, reschedule, mark_done, on_call_terminal, reclaim_expired_locks,
  seed_one, seed_many, same_phone, among, locked_for, candidates,
}

pub claim_batch-Keeps :
    (locked : ℕ → Bool) (campaign_id n : ℕ) (worker : String) (lease_until now : ℕ) (d : Db)
    → Keeps d (claim_batch locked campaign_id n worker lease_until now d).0
unfolding claim_batch
claim_batch-Keeps locked campaign_id n worker lease_until now d =
    update_borrowers (among (candidates locked campaign_id n now d)) (locked_for worker lease_until)
      (λ b v e. (ground arith, ground arith)) (λ b. refl) d

pub claim_one-Keeps :
    (locked : ℕ → Bool) (campaign_id : ℕ) (worker : String) (lease_until now : ℕ) (d : Db)
    → Keeps d (claim_one locked campaign_id worker lease_until now d).0
unfolding claim_one
claim_one-Keeps locked campaign_id worker lease_until now =
    claim_batch-Keeps locked campaign_id 1 worker lease_until now

pub release-Keeps : (borrower_id : ℕ) (d : Db) → Keeps d (release borrower_id d)
unfolding release
release-Keeps borrower_id = update_borrowers _ _ (λ b v e. (ground arith, ground arith)) (λ b. refl)

pub reschedule-Keeps :
    (borrower_id backoff_s now : ℕ) (d : Db) → Keeps d (reschedule borrower_id backoff_s now d)
unfolding reschedule
reschedule-Keeps borrower_id backoff_s now =
    update_borrowers _ _ (λ b v e. (ground arith, ground arith)) (λ b. refl)

pub mark_done-Keeps : (borrower_id : ℕ) (d : Db) → Keeps d (mark_done borrower_id d)
unfolding mark_done
mark_done-Keeps borrower_id =
    update_borrowers _ _ (λ b v e. (ground arith, ground arith)) (λ b. refl)

pub on_call_terminal-Keeps :
    (borrower_id : ℕ) (s : CallState) (backoff_s now : ℕ) (d : Db)
    → Keeps d (on_call_terminal borrower_id s backoff_s now d)
unfolding on_call_terminal
on_call_terminal-Keeps borrower_id CallState.completed backoff_s now = mark_done-Keeps borrower_id
on_call_terminal-Keeps borrower_id _ backoff_s now = reschedule-Keeps borrower_id backoff_s now

pub reclaim_expired_locks-Keeps : (now : ℕ) (d : Db) → Keeps d (reclaim_expired_locks now d).0
unfolding reclaim_expired_locks
reclaim_expired_locks-Keeps now =
    update_borrowers _ _ (λ b v e. (ground arith, ground arith)) (λ b. refl)

seed_one-Keeps :
    (campaign_id : ℕ) (phone : String) (now : ℕ) (d : Db)
    → Keeps d (seed_one campaign_id phone now d)
unfolding seed_one
seed_one-Keeps campaign_id phone now d =
    elim (Option-cases (find (same_phone campaign_id phone) d.borrowers)) [
      | inl e ↦ rw (e, seed_one) (insert_borrower _ d (ground arith) refl)
      | inr (b, e) ↦ rw (e, seed_one) (Keeps-refl d)
    ]

pub seed_many-Keeps :
    (campaign_id : ℕ) (phones : List String) (now : ℕ) (d : Db)
    → Keeps d (seed_many campaign_id phones now d)
unfolding seed_many
seed_many-Keeps campaign_id [] now d = Keeps-refl d
seed_many-Keeps campaign_id (phone ∷ phones) now d =
    Keeps-trans d _ _ (seed_one-Keeps campaign_id phone now d)
      (seed_many-Keeps campaign_id phones now _)
