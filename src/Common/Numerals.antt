-- ===== src/Common/Numerals.antt =====
-- Decimal numerals as strings: what an f-string has in place of a natural number.
use Prim.Native.Nat.{ℕ, zero, suc, ◌+◌, ◌/◌, ◌%◌, ◌<◌}
use Prim.Native.String.{String}
use mathlib.Core.Path.{◌≡◌, refl, sym, ap, ◌∙◌}
use mathlib.Core.List.{◌∷◌, ◌++◌}
use mathlib.Core.Logic.{inl, inr}
use native.Mathlib.Nat.{mod-lt}
use native.Mathlib.Omega.{arith}
use smart_dialer.Common.Tests.{ltb, ◌==◌, if◌then◌else◌, Bool-cases}
use smart_dialer.Common.Text.{codes}
use smart_dialer.Common.Digits.{digits_onto, decimal, decimal-append}

-- A digit before a text; numbers above 8 give a nine.
abbrev pub digit_onto : ℕ → String → String
digit_onto d s =
    if d == 0
    then String.◌∷◌ "0" s
    else if d == 1
    then String.◌∷◌ "1" s
    else if d == 2
    then String.◌∷◌ "2" s
    else if d == 3
    then String.◌∷◌ "3" s
    else if d == 4
    then String.◌∷◌ "4" s
    else if d == 5
    then String.◌∷◌ "5" s
    else if d == 6
    then String.◌∷◌ "6" s
    else if d == 7
    then String.◌∷◌ "7" s
    else if d == 8
    then String.◌∷◌ "8" s
    else String.◌∷◌ "9" s

codes-digit_onto : (d : ℕ) (s : String) → d < 10 → codes (digit_onto d s) ≡ (b'0' + d) ∷ codes s
codes-digit_onto d s h = ground arith

-- The numeral of a number before a text.
pub numeral_onto : ℕ → ℕ → String → String
numeral_onto zero n out = out
numeral_onto (suc fuel) n out =
    let more = numeral_onto fuel (n / 10) (digit_onto (n % 10) out) in
    if ltb n 10 then digit_onto n out else more

codes-numeral_onto :
    (fuel n : ℕ) (out : String) → codes (numeral_onto fuel n out) ≡ digits_onto fuel n (codes out)
unfolding numeral_onto digits_onto
codes-numeral_onto zero n out = refl
codes-numeral_onto (suc fuel) n out = elim (Bool-cases (ltb n 10)) [
  | inl e ↦ rw (e, numeral_onto, digits_onto) (codes-digit_onto n out (ground arith))
  | inr e ↦
      rw (e, numeral_onto, digits_onto)
        (codes-numeral_onto fuel (n / 10) (digit_onto (n % 10) out)
          ∙ ap (digits_onto fuel (n / 10)) (codes-digit_onto (n % 10) out (mod-lt n (omega arith))))
]

-- `f"{n}" + s`
unfoldable pub numeral : ℕ → String → String
unfolding numeral_onto
numeral n s = numeral_onto (suc n) n s

pub codes-numeral : (n : ℕ) (s : String) → codes (numeral n s) ≡ decimal n ++ codes s
unfolding numeral
codes-numeral n s = codes-numeral_onto (suc n) n s ∙ sym (decimal-append n (codes s))

-- One text behind another.
abbrev pub joined : String → String → String
joined String.[] t = t
joined (String.◌∷◌ c s) t = String.◌∷◌ c (joined s t)
