-- ===== src/Floats.antt =====
-- All that the code does with `float` and `double`: conversions, literals, the four operations and
-- two comparisons. The arithmetic itself is the compiler's and the machine's, so it is a parameter.
use chronos_xserver.Prelude.{ℕ, ◌*◌, ◌/◌, ◌+◌, ◌-◌, Bool, ℤ, pos, pos_part, ltb, leb}

pub record Floats : Type 1 where
  pub Float : Type 0
  pub Double : Type 0
  pub widen : Float → Double
  pub narrow : Double → Float
  pub float_of : ℤ → Float
  pub double_of : ℤ → Double
  -- the literal n/d, such as 1.1 for `literal 11 10`
  pub literal : ℕ → ℕ → Double
  pub add_f : Float → Float → Float
  pub mul_f : Float → Float → Float
  pub div_f : Float → Float → Float
  pub le_f : Float → Float → Bool
  pub lt_f : Float → Float → Bool
  pub add_d : Double → Double → Double
  pub sub_d : Double → Double → Double
  pub mul_d : Double → Double → Double
  pub div_d : Double → Double → Double
  pub lt_d : Double → Double → Bool
  -- conversions to an integer type cut the fraction off
  pub trunc_f : Float → ℤ
  pub trunc_d : Double → ℤ

-- A fixed-point arithmetic in thousandths, at and above zero, for runs at concrete inputs.
abbrev pub thousandths : Floats
thousandths = record {
  Float = ℕ;
  Double = ℕ;
  widen = λ x. x;
  narrow = λ x. x;
  float_of = λ n. pos_part n * 1000;
  double_of = λ n. pos_part n * 1000;
  literal = λ n d. n * 1000 / d;
  add_f = λ x y. x + y;
  mul_f = λ x y. x * y / 1000;
  div_f = λ x y. x * 1000 / y;
  le_f = leb;
  lt_f = ltb;
  add_d = λ x y. x + y;
  sub_d = λ x y. x - y;
  mul_d = λ x y. x * y / 1000;
  div_d = λ x y. x * 1000 / y;
  lt_d = ltb;
  trunc_f = λ x. pos (x / 1000);
  trunc_d = λ x. pos (x / 1000);
}
