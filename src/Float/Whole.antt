-- ===== src/Float/Whole.antt =====
-- The laws of `Float` can be met: whole numbers, with division that truncates.
use exchange_data_importer.Prelude.{suc, ◌^◌, Bool, ◌&&◌, arith, if◌then◌else◌}
use exchange_data_importer.Prelude.Int.{ℤ, pos, negsuc, ◌+ℤ◌, ◌-ℤ◌, ◌*ℤ◌, ltb_ℤ, leb_ℤ, quot}
use exchange_data_importer.Float.{Float, IsOrdered}

abbrev pub div_ℤ : ℤ → ℤ → ℤ
div_ℤ a (pos b) = quot a b
div_ℤ a (negsuc b) = quot (pos 0 -ℤ a) (suc b)

abbrev pub pow10_ℤ : ℤ → ℤ
pow10_ℤ (pos n) = pos (10 ^ n)
pow10_ℤ (negsuc n) = pos 0

abbrev pub abs_ℤ : ℤ → ℤ
abs_ℤ (pos n) = pos n
abs_ℤ (negsuc n) = pos (suc n)

abbrev pub eq_ℤ : ℤ → ℤ → Bool
eq_ℤ a b = leb_ℤ a b && leb_ℤ b a

abbrev pub max_ℤ : ℤ → ℤ → ℤ
max_ℤ a b = if leb_ℤ a b then b else a

abbrev pub min_ℤ : ℤ → ℤ → ℤ
min_ℤ a b = if leb_ℤ a b then a else b

instance abbrev pub whole : Float ℤ
whole = record {
  lit = λ a. a;
  add = ◌+ℤ◌;
  sub = ◌-ℤ◌;
  mul = ◌*ℤ◌;
  div = div_ℤ;
  lt = ltb_ℤ;
  le = leb_ℤ;
  eq = eq_ℤ;
  round = λ a. a;
  pow10 = pow10_ℤ;
  abs = abs_ℤ;
  max_of = max_ℤ;
  min_of = min_ℤ;
  max_float64 = pos (10 ^ 30);
  to_int16 = λ a. a;
}

pub whole-IsOrdered : IsOrdered ℤ
whole-IsOrdered = record {
  le_trans = λ x y z h k. ground arith;
  num_of_le = λ x y h. ground arith;
  lt-eq-not-le = λ x y h k. ground arith;
  le_total = λ x y h k. ground arith;
  lt_num = λ x y h. ground arith;
  max_of_le = λ x y h k. ground arith;
  min_of_le = λ x y h k. ground arith;
}
