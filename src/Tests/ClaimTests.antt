-- ===== src/Tests/ClaimTests.antt =====
-- Claiming among three borrowers with other priorities and times.
use smart_dialer.Common.{refl, false, [], ◌∷◌, All, select}
use smart_dialer.Store.{Borrower, Db}
use smart_dialer.Repo.Borrowers.{dialable, candidates}
use smart_dialer.Repo.Borrowers.Precedence.{IsBefore, first_claimed-IsBefore}
use smart_dialer.Tests.Samples.{sample, called_borrower, waiting_borrower}

abbrev recent_borrower : Borrower
recent_borrower = record waiting_borrower { id = 3; phone = "+15550003"; next_eligible_at = 950 }

abbrev urgent_borrower : Borrower
urgent_borrower = record waiting_borrower {
  id = 4;
  phone = "+15550004";
  priority = 10;
  next_eligible_at = 1_900;
}

abbrev queue : Db
queue = record sample {
  borrowers = recent_borrower ∷ called_borrower ∷ urgent_borrower ∷ waiting_borrower ∷ [];
}

first_claimed-IsBefore_example :
    All (IsBefore urgent_borrower) (select (dialable (λ i. false) 1 2_000) queue.borrowers)
unfolding candidates
first_claimed-IsBefore_example =
    first_claimed-IsBefore (λ i. false) 1 2 2_000 queue urgent_borrower (waiting_borrower ∷ []) refl
