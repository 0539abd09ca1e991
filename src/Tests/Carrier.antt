-- ===== src/Tests/Carrier.antt =====
-- The fixed-point numbers meet the laws that the theorems assume of floats.
use native.Mathlib.Nat.{div-mul-le_self, lt-div-mul-add}
use forex_ea.Prelude.{ℕ, suc, ◌+◌, ◌*◌, ◌/◌, ◌≤◌, ◌<◌, ◌≡◌, refl, ap, arith}
use forex_ea.Prelude.Int.{ℤ, pos, negsuc, sub_ℕ, pos_part, neg_part}
use forex_ea.Float.{◌≼◌, ◌≺◌}
use forex_ea.Float.Fixed.{fixed_float, floored, product, scale}
use forex_ea.Risk.Sizing.Bounds.{IsFloored}
use forex_ea.Correlation.Monotone.{IsMonotone}

positive : (b : ℕ) → pos 0 ≺ pos b → 0 < b
positive b h = ground arith

negative_parts : (n : ℕ) → (pos_part (sub_ℕ 0 n) ≡ 0) × (neg_part (sub_ℕ 0 n) ≡ n)
negative_parts n = (ground arith, ground arith)

negative_product :
    (a b c n : ℕ) → n ≡ c * scale → suc a ≤ c * b → product (sub_ℕ 0 n) (pos b) ≼ negsuc a
negative_product a b c n e h =
    let (zeros, all) = negative_parts n in
    let exact : n * b / scale ≡ c * b = omega (arith, ap (λ k. k * b) e) in
    rw (zeros, all) (ground (arith, exact, h))

floor_le : (x s : ℤ) → pos 0 ≺ s → product (floored x s) s ≼ x
floor_le (pos a) (pos b) h = ground (arith, div-mul-le_self a b)
floor_le (negsuc a) (pos b) h =
    negative_product a b ((a + b) / b) _ refl
      (omega (arith, lt-div-mul-add {a = a + b} {b = b} (positive b h)))
floor_le x (negsuc b) h = absurd (ground (arith, h))

pub Fixed-IsFloored : IsFloored ℤ
Fixed-IsFloored = record { floor_le = λ x s h small n. floor_le x s h }

pub Fixed-IsMonotone : IsMonotone ℤ
Fixed-IsMonotone = record {
  nought_number = refl;
  le-add = λ x y h k. ground arith;
  add_mono = λ x y z h k l. ground arith;
}
