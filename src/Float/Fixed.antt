-- ===== src/Float/Fixed.antt =====
-- Fixed-point numbers of four decimals meet the laws: they are the carrier of the tests.
use forex_ea.Prelude.{ℕ, suc, ◌+◌, ◌*◌, ◌/◌, ◌^◌, if◌then◌else◌, arith, ltb, nat_beq}
use forex_ea.Prelude.Int.{ℤ, pos, negsuc, pos_part, neg_part, sub_ℕ, ◌+ℤ◌, ◌-ℤ◌, ltb_ℤ, leb_ℤ}
use forex_ea.Float.{Float, IsOrdered}

abbrev pub scale : ℕ
scale = 10_000

abbrev quotient : ℤ → ℤ → ℤ
quotient a b =
    if ltb 0 (pos_part b)
    then sub_ℕ (pos_part a * scale / pos_part b) (neg_part a * scale / pos_part b)
    else sub_ℕ (neg_part a * scale / neg_part b) (pos_part a * scale / neg_part b)

abbrev pub product : ℤ → ℤ → ℤ
product a b =
    sub_ℕ ((pos_part a * pos_part b + neg_part a * neg_part b) / scale)
      ((pos_part a * neg_part b + neg_part a * pos_part b) / scale)

-- the floor of a quotient
abbrev pub floored : ℤ → ℤ → ℤ
floored (pos a) (pos b) = pos (a / b * scale)
floored (negsuc a) (pos b) = sub_ℕ 0 ((a + b) / b * scale)
floored (pos a) (negsuc b) = sub_ℕ 0 ((a + b) / suc b * scale)
floored (negsuc a) (negsuc b) = pos (suc a / suc b * scale)

instance abbrev pub fixed_float : Float ℤ
fixed_float = record {
  nought = pos 0;
  add = ◌+ℤ◌;
  sub = ◌-ℤ◌;
  mul = product;
  div = quotient;
  floor_div = floored;
  round_cents = λ a. sub_ℕ ((pos_part a + 50) / 100 * 100) ((neg_part a + 50) / 100 * 100);
  neg = λ a. sub_ℕ (neg_part a) (pos_part a);
  abs = λ a. pos (pos_part a + neg_part a);
  lt = ltb_ℤ;
  le = leb_ℤ;
  eq = λ a b. nat_beq (pos_part a + neg_part b) (pos_part b + neg_part a);
  lit = λ m k. pos (m * scale / 10 ^ k);
}

pub Fixed-IsOrdered : IsOrdered ℤ
Fixed-IsOrdered = record {
  lt_irrefl = λ x. ground arith;
  lt_trans = λ x y z h k. ground arith;
  le_trans = λ x y z h k. ground arith;
  le_of_lt = λ x y h. ground arith;
  lt_of_lt_of_le = λ x y z h k. ground arith;
  lt_of_le_of_lt = λ x y z h k. ground arith;
  numbers_of_le = λ x y h. (ground arith, ground arith);
  le_of_not_lt = λ x y a b h. ground arith;
  not_lt_of_le = λ x y h. ground arith;
}
