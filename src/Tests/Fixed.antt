-- ===== src/Tests/Fixed.antt =====
-- An instance of the floats: numbers of thousandths.
use smart_dialer.Providers.Registry.Best.{Transitive}
use smart_dialer.Common.{ℕ, ◌+◌, ◌-◌, ◌*◌, ◌/◌, zero, suc, Float, Irreflexive, ltb, arith}

abbrev thousandths : ℕ → ℕ → ℕ
thousandths m zero = m * 1000
thousandths m (suc k) = thousandths m k / 10

abbrev pub fixed : Float
fixed = record {
  Number = ℕ;
  literal = thousandths;
  of_ℕ = λ n. n * 1000;
  add = λ a b. a + b;
  sub = λ a b. a - b;
  mul = λ a b. a * b / 1000;
  div = λ a b. a * 1000 / b;
  sqrt = λ a. a;
  lt = ltb;
  trunc = λ a. a / 1000;
  floor = λ a. a / 1000;
}

pub fixed-Irreflexive : Irreflexive fixed
fixed-Irreflexive x = ground arith

pub fixed-Transitive : Transitive fixed
fixed-Transitive x y z h k = ground arith
