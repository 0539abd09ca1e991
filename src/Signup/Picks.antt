-- ===== src/Signup/Picks.antt =====
-- The picks of one kind as the taps on the picker change them: src/api/telegram_signup.py.
use forex_ea.Prelude.{
  ℕ, ◌≤◌, ◌≡◌, refl, Bool, true, false, not, ◌&&◌, Option, none, some, List, [], ◌∷◌, ◌++◌, String,
  length, ltb, arith, All, All-append, length-append, Bool-cases, inl, inr,
}
use forex_ea.Table.{◌==◌, string_eq}
use forex_ea.Users.{is_in}
use forex_ea.Users.Members.{is_in-append}
use forex_ea.Signup.Csv.{IsPlain}
use forex_ea.Signup.Bot.{remove, toggled}

-- No name is there twice.
abbrev pub distinct : List String → Bool
distinct [] = true
distinct (x ∷ xs) = not (is_in x xs) && distinct xs

-- Distinct names that a column keeps, at most so many.
abbrev pub IsPicks : ℕ → List String → Type 0
IsPicks most names = All IsPlain names × (distinct names ≡ true) × (length names ≤ most)

distinct-append :
    (x : String) (xs : List String)
    → is_in x xs ≡ false
    → distinct xs ≡ true
    → distinct (xs ++ x ∷ []) ≡ true
distinct-append x [] h d = refl
distinct-append x (y ∷ xs) h d =
    ground (
      arith,
      is_in-append y x xs,
      distinct-append x xs,
      string_eq.beq_iff x y,
      string_eq.beq_iff y x,
    )

is_in-remove :
    (x y : String) (xs : List String) → is_in y xs ≡ false → is_in y (remove x xs) ≡ false
is_in-remove x y [] h = refl
is_in-remove x y (z ∷ xs) h = ground (arith, is_in-remove x y xs)

distinct-remove :
    (x : String) (xs : List String) → distinct xs ≡ true → distinct (remove x xs) ≡ true
distinct-remove x [] d = refl
distinct-remove x (y ∷ xs) d = ground (arith, is_in-remove x y xs, distinct-remove x xs)

length-remove : (x : String) (xs : List String) → length (remove x xs) ≤ length xs
length-remove x [] = omega arith
length-remove x (y ∷ xs) = ground (arith, length-remove x xs)

All-remove {κ} :
    (P : String → Type κ) (x : String) (xs : List String) → All P xs → All P (remove x xs)
All-remove P x [] h = tt
All-remove P x (y ∷ xs) h = elim (Bool-cases (y == x)) [
  | inl hit ↦ rw hit h.1
  | inr miss ↦ rw miss (h.0, All-remove P x xs h.1)
]

abbrev pub OnPicks : (List String → Type 0) → Option (List String) → Type 0
OnPicks P none = Unit
OnPicks P (some names) = P names

-- A tap on a name that a column keeps leaves distinct names, and not more than required.
pub toggled-IsPicks :
    (required : ℕ) (strategy : String) (current : List String)
    → IsPlain strategy
    → IsPicks required current
    → OnPicks (IsPicks required) (toggled required strategy current)
toggled-IsPicks required strategy current plain (names, apart, bound) =
    elim (Bool-cases (is_in strategy current)) [
      | inl picked ↦ rw picked (
        All-remove IsPlain strategy current names,
        distinct-remove strategy current apart,
        omega (arith, length-remove strategy current),
      )
      | inr fresh ↦ rw fresh (elim (Bool-cases (ltb (length current) required)) [
        | inl room ↦ rw room (
          All-append IsPlain current (strategy ∷ []) names (plain, tt),
          distinct-append strategy current fresh apart,
          ground (arith, length-append current (strategy ∷ [])),
        )
        | inr full ↦ rw full tt
      ])
    ]
