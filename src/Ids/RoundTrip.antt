-- ===== src/Ids/RoundTrip.antt =====
-- The text of an idempotency key (src/smartdialer/ids.py) has the three numbers in it.
use smart_dialer.Common.{
  ℕ, ◌≡◌, ◌↔◌, refl, sym, ap, ◌∙◌, true, Option, none, some, some_inj, List, [], ◌∷◌, ◌++◌,
  if◌then◌else◌, ◌==◌, decimal, read_digits, read_colon, read_end, arith,
}
use smart_dialer.Store.{IdempotencyKey}
use smart_dialer.Repo.Calls.{same_key}
use smart_dialer.Ids.{idempotency_key}

abbrev pub text_of : IdempotencyKey → List ℕ
text_of k = idempotency_key k.campaign k.borrower k.attempt

-- What follows a colon.
abbrev after_colon {ℓ} : {A : Type ℓ} → List ℕ → (List ℕ → Option A) → Option A
after_colon [] f = none
after_colon (c ∷ s) f = if c == b':' then f s else none

abbrev ended {ℓ} : {A : Type ℓ} → List ℕ → A → Option A
ended [] a = some a
ended (c ∷ s) a = none

pub parse_key : List ℕ → Option IdempotencyKey
parse_key s =
    let (campaign, s1) = read_digits s 0 in
    after_colon s1 (λ t.
      let (borrower, t1) = read_digits t 0 in
      after_colon t1 (λ u.
        let (attempt, u1) = read_digits u 0 in
        ended u1 (record { campaign = campaign; borrower = borrower; attempt = attempt })))

parse_key-text_of : (k : IdempotencyKey) → parse_key (text_of k) ≡ some k
unfolding parse_key idempotency_key
parse_key-text_of k =
    rw (read_colon k.campaign (decimal k.borrower ++ b':' ∷ (decimal k.attempt ++ [])))
      (rw (read_colon k.borrower (decimal k.attempt ++ [])) (rw (read_end k.attempt) refl))

-- Every idempotency key is read back from its text, and two keys have the same text exactly when
-- they are of the same campaign, borrower and attempt.
pub parse_key-idempotency_key :
    (k m : IdempotencyKey)
    → (parse_key (text_of k) ≡ some k) × ((text_of k ≡ text_of m) ↔ (same_key k m ≡ true))
parse_key-idempotency_key k m = (
  parse_key-text_of k,
  (
    (λ e. same (some_inj (sym (parse_key-text_of k) ∙ ap parse_key e ∙ parse_key-text_of m))),
    (λ e. ap text_of (equal e)),
  ),
)
  where
    same : k ≡ m → same_key k m ≡ true
    same e = ground arith

    equal : same_key k m ≡ true → k ≡ m
    equal e = ground arith
