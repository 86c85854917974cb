-- ===== src/Repo/Borrowers/Precedence.antt =====
-- Which borrower CLAIM_BATCH of src/smartdialer/repo/borrowers.py takes first.
use smart_dialer.Common.{
  ℕ, zero, suc, Bool, List, [], ◌∷◌, ◌≡◌, ◌≤◌, ◌<◌, ◌⊎◌, All, select, take, least_first, arith,
}
use smart_dialer.Store.{Borrower, Db}
use smart_dialer.Repo.Borrowers.{dialable, candidates}

-- The one borrower has a smaller priority, or the same one and was eligible no later.
abbrev pub IsBefore : Borrower → Borrower → Type 0
IsBefore a b =
    (a.priority < b.priority)
    ⊎ ((a.priority ≡ b.priority) × (a.next_eligible_at ≤ b.next_eligible_at))

take-head :
    {A : Type 0} (n : ℕ) (xs : List A) (x : A) (rest : List A)
    → take n xs ≡ x ∷ rest
    → (tail : List A) × (xs ≡ x ∷ tail)
take-head zero xs x rest e = absurd (ground arith)
take-head (suc n) [] x rest e = absurd (ground arith)
take-head (suc n) (y ∷ ys) x rest e = (ys, ground arith)

-- The first borrower that a claim of any size takes comes before every borrower of the campaign
-- that could be dialed then: its priority is smaller, or equal and it was eligible no later.
pub first_claimed-IsBefore :
    (locked : ℕ → Bool) (campaign_id n now : ℕ) (db : Db) (c : Borrower) (rest : List Borrower)
    → candidates locked campaign_id n now db ≡ c ∷ rest
    → All (IsBefore c) (select (dialable locked campaign_id now) db.borrowers)
unfolding candidates
first_claimed-IsBefore locked campaign_id n now db c rest e =
    let (tail, q) = take-head n _ c rest e in
    least_first (λ b. b.priority) (λ b. b.next_eligible_at) _ c tail q
