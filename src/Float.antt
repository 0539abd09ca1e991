-- ===== src/Float.antt =====
-- What the code does with a Python `float`: the arithmetic, the comparisons and the literals, as the
-- operations of an arbitrary carrier. The laws that a proof may assume are those of IEEE 754
-- comparisons and of rounded addition; NaN is the value that is not `<=` itself.
pub mod Fixed
use forex_ea.Prelude.{ℕ, ◌≡◌, Bool, true, false, if◌then◌else◌}

pub record Float (F : Type 0) : Type 0 where
  pub nought : F
  pub add : F → F → F
  pub sub : F → F → F
  pub mul : F → F → F
  pub div : F → F → F
  -- Python's `//`, and `round(x, 2)`
  pub floor_div : F → F → F
  pub round_cents : F → F
  pub neg : F → F
  pub abs : F → F
  pub lt : F → F → Bool
  pub le : F → F → Bool
  pub eq : F → F → Bool
  -- `lit m k` is the literal m · 10⁻ᵏ
  pub lit : ℕ → ℕ → F

module _ {F : Type 0} ⦃f : Float F⦄ where
  open f use {lt, le}

  -- `max(a, b)` and `min(a, b)` keep the first argument on a tie.
  abbrev pub max_of : F → F → F
  max_of a b = if lt a b then b else a

  abbrev pub min_of : F → F → F
  min_of a b = if lt b a then b else a

  infix 50 ◌≼◌ ◌≺◌
  abbrev pub ◌≼◌ : F → F → Type 0
  x ≼ y = le x y ≡ true

  abbrev pub ◌≺◌ : F → F → Type 0
  x ≺ y = lt x y ≡ true

  -- not NaN
  abbrev pub IsNumber : F → Type 0
  IsNumber x = le x x ≡ true

-- The comparisons of IEEE 754, at every value, NaN included.
pub record IsOrdered (F : Type 0) ⦃f : Float F⦄ : Type 0 where
  pub lt_irrefl : (x : F) → f.lt x x ≡ false
  pub lt_trans : (x y z : F) → x ≺ y → y ≺ z → x ≺ z
  pub le_trans : (x y z : F) → x ≼ y → y ≼ z → x ≼ z
  pub le_of_lt : (x y : F) → x ≺ y → x ≼ y
  pub lt_of_lt_of_le : (x y z : F) → x ≺ y → y ≼ z → x ≺ z
  pub lt_of_le_of_lt : (x y z : F) → x ≼ y → y ≺ z → x ≺ z
  pub numbers_of_le : (x y : F) → x ≼ y → IsNumber x × IsNumber y
  pub le_of_not_lt : (x y : F) → IsNumber x → IsNumber y → f.lt x y ≡ false → y ≼ x
  pub not_lt_of_le : (x y : F) → x ≼ y → f.lt y x ≡ false
