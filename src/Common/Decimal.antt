-- ===== src/Common/Decimal.antt =====
-- Floating-point numbers as an interface: the program's float arithmetic is that of the machine,
-- and nothing is assumed of it but what a theorem names. `trunc x` is `int(x)` and `floor x` is
-- `math.floor(x)`, both 0 where the result is negative; `literal m k` is the decimal m / 10 ^ k.
use Prim.Native.Nat.{ℕ}
use mathlib.Core.Bool.{Bool, false}
use mathlib.Core.Path.{◌≡◌}
use smart_dialer.Common.Tests.{if◌then◌else◌}

pub record Float : Type 1 where
  pub Number : Type 0
  pub literal : ℕ → ℕ → Number
  pub of_ℕ : ℕ → Number
  pub add : Number → Number → Number
  pub sub : Number → Number → Number
  pub mul : Number → Number → Number
  pub div : Number → Number → Number
  pub sqrt : Number → Number
  pub lt : Number → Number → Bool
  pub trunc : Number → ℕ
  pub floor : Number → ℕ

-- Python's two-argument `min` and `max` return the first of equal arguments, and `a <= b` is no
-- negation of `b < a`: the interface's `lt` says what holds of a NaN.
abbrev pub min_of : (fl : Float) → fl.Number → fl.Number → fl.Number
min_of fl a b = if fl.lt b a then b else a

abbrev pub max_of : (fl : Float) → fl.Number → fl.Number → fl.Number
max_of fl a b = if fl.lt a b then b else a

-- No number is below itself: true of every IEEE format, the NaNs included.
abbrev pub Irreflexive : Float → Type 0
Irreflexive fl = (x : fl.Number) → fl.lt x x ≡ false
