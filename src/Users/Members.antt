-- ===== src/Users/Members.antt =====
-- Membership of a name in a list of names, after an addition and after a removal.
use forex_ea.Prelude.{◌≡◌, refl, not, ◌&&◌, ◌||◌, List, [], ◌∷◌, ◌++◌, String, arith}
use forex_ea.Table.{◌==◌, string_eq}
use forex_ea.Users.{is_in, without}

pub is_in-append :
    (x y : String) (xs : List String) → is_in x (xs ++ y ∷ []) ≡ (is_in x xs || y == x)
is_in-append x y [] = ground arith
is_in-append x y (z ∷ xs) = ground (arith, is_in-append x y xs)

pub is_in-without :
    (x y : String) (xs : List String) → is_in y (without x xs) ≡ (is_in y xs && not (x == y))
is_in-without x y [] = refl
is_in-without x y (z ∷ xs) = ground (
  arith,
  is_in-without x y xs,
  string_eq.beq_iff z x,
  string_eq.beq_iff z y,
  string_eq.beq_iff x y,
)
