-- ===== src/Common/Digits.antt =====
-- The decimal digits of a number, as code points, and reading them back.
use Prim.Native.Nat.{ℕ, zero, suc, ◌+◌, ◌-◌, ◌*◌, ◌/◌, ◌%◌, ◌<◌}
use mathlib.Core.Path.{◌≡◌, refl, sym, ap, ◌∙◌}
use mathlib.Core.Bool.{Bool, ◌&&◌}
use mathlib.Core.List.{List, [], ◌∷◌, ◌++◌}
use mathlib.Core.Logic.{inl, inr}
use native.Mathlib.Omega.{arith}
use smart_dialer.Common.Tests.{ltb, leb, if◌then◌else◌, Bool-cases}

-- The digits of a number before a text. The fuel is above the number, which every round divides.
unfoldable pub digits_onto : ℕ → ℕ → List ℕ → List ℕ
digits_onto zero n out = out
digits_onto (suc fuel) n out =
    let more = digits_onto fuel (n / 10) ((b'0' + n % 10) ∷ out) in
    if ltb n 10 then (b'0' + n) ∷ out else more

-- Python's `str` of a natural number.
unfoldable pub decimal : ℕ → List ℕ
unfolding digits_onto
decimal n = digits_onto (suc n) n []

abbrev pub is_digit : ℕ → Bool
is_digit c = leb b'0' c && leb c b'9'

-- The number that the digits at the front of a text go on to, and the text behind them.
unfoldable pub read_digits : List ℕ → ℕ → ℕ × List ℕ
read_digits [] n = (n, [])
read_digits (c ∷ s) n =
    let more = read_digits s (n * 10 + (c - b'0')) in if is_digit c then more else (n, c ∷ s)

digits_onto-append :
    (fuel n : ℕ) (out rest : List ℕ)
    → digits_onto fuel n (out ++ rest) ≡ digits_onto fuel n out ++ rest
unfolding digits_onto
digits_onto-append zero n out rest = refl
digits_onto-append (suc fuel) n out rest = elim (Bool-cases (ltb n 10)) [
  | inl e ↦ rw (e, digits_onto) (refl)
  | inr e ↦ rw (e, digits_onto) (digits_onto-append fuel (n / 10) ((b'0' + n % 10) ∷ out) rest)
]

read_last :
    (n : ℕ) (out : List ℕ) → read_digits ((b'0' + n % 10) ∷ out) (n / 10) ≡ read_digits out n
unfolding read_digits
read_last n out = ground arith

read_small : (n : ℕ) (out : List ℕ) → n < 10 → read_digits ((b'0' + n) ∷ out) 0 ≡ read_digits out n
unfolding read_digits
read_small n out h = ground arith

read_digits-onto :
    (fuel n : ℕ) (out : List ℕ)
    → n < fuel
    → read_digits (digits_onto fuel n out) 0 ≡ read_digits out n
unfolding digits_onto
read_digits-onto zero n out h = absurd (omega arith)
read_digits-onto (suc fuel) n out h = elim (Bool-cases (ltb n 10)) [
  | inl e ↦ rw (e, digits_onto) (read_small n out (ground arith))
  | inr e ↦
      rw (e, digits_onto)
        (read_digits-onto fuel (n / 10) ((b'0' + n % 10) ∷ out) (ground arith) ∙ read_last n out)
]

pub decimal-append : (n : ℕ) (rest : List ℕ) → decimal n ++ rest ≡ digits_onto (suc n) n rest
unfolding decimal
decimal-append n rest = sym (digits_onto-append (suc n) n [] rest)

-- A printed number is read back off the front of any text.
pub read_digits-decimal :
    (n : ℕ) (rest : List ℕ) → read_digits (decimal n ++ rest) 0 ≡ read_digits rest n
read_digits-decimal n rest =
    ap (λ t. read_digits t 0) (decimal-append n rest)
    ∙ read_digits-onto (suc n) n rest (omega arith)

pub read_colon :
    (n : ℕ) (rest : List ℕ) → read_digits (decimal n ++ b':' ∷ rest) 0 ≡ (n, b':' ∷ rest)
unfolding read_digits
read_colon n rest = read_digits-decimal n (b':' ∷ rest)

pub read_dash :
    (n : ℕ) (rest : List ℕ) → read_digits (decimal n ++ b'-' ∷ rest) 0 ≡ (n, b'-' ∷ rest)
unfolding read_digits
read_dash n rest = read_digits-decimal n (b'-' ∷ rest)

pub read_end : (n : ℕ) → read_digits (decimal n ++ []) 0 ≡ (n, [])
unfolding read_digits
read_end n = read_digits-decimal n []
