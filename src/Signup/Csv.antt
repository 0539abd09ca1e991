-- ===== src/Signup/Csv.antt =====
-- The columns of picks in src/api/subscription_requests.py: `",".join(names)` and `_split_csv`, on ASCII
-- texts.
use Prim.Native.Char.{Char, code}
use forex_ea.Prelude.{
  ◌≡◌, refl, ap, ◌∙◌, Bool, true, false, not, ◌&&◌, ◌||◌, List, [], ◌∷◌, String, map, select, leb,
  nat_beq, arith, All, if◌then◌else◌,
}

abbrev pub comma : String
comma = ","

-- `s + t`
abbrev pub concat : String → String → String
concat String.[] t = t
concat (String.◌∷◌ c s) t = String.◌∷◌ c (concat s t)

abbrev pub join_csv : List String → String
join_csv [] = ""
join_csv (name ∷ []) = name
join_csv (name ∷ other ∷ names) = concat name (concat comma (join_csv (other ∷ names)))

abbrev onto_first : Char → List String → List String
onto_first c [] = String.◌∷◌ c String.[] ∷ []
onto_first c (part ∷ parts) = String.◌∷◌ c part ∷ parts

-- `value.split(",")`
abbrev split_commas : String → List String
split_commas String.[] = "" ∷ []
split_commas (String.◌∷◌ c s) =
    if nat_beq (code c) b',' then "" ∷ split_commas s else onto_first c (split_commas s)

abbrev pub is_space : Char → Bool
is_space c = (leb 9 (code c) && leb (code c) 13) || (leb 28 (code c) && leb (code c) 32)

abbrev pub is_empty_text : String → Bool
is_empty_text String.[] = true
is_empty_text (String.◌∷◌ c s) = false

abbrev lstrip : String → String
lstrip String.[] = ""
lstrip (String.◌∷◌ c s) = if is_space c then lstrip s else String.◌∷◌ c s

abbrev rstrip : String → String
rstrip String.[] = ""
rstrip (String.◌∷◌ c s) =
    let rest = rstrip s in if is_space c && is_empty_text rest then "" else String.◌∷◌ c rest

abbrev pub strip : String → String
strip s = rstrip (lstrip s)

abbrev kept : List String → List String
kept parts = select (λ p. not (is_empty_text p)) (map strip parts)

unfoldable pub split_csv : String → List String
split_csv value = if is_empty_text value then [] else kept (split_commas value)

abbrev no_comma : String → Bool
no_comma String.[] = true
no_comma (String.◌∷◌ c s) = not (nat_beq (code c) b',') && no_comma s

-- A name that survives: not empty, no comma, no white space at its ends.
abbrev pub IsPlain : String → Type 0
IsPlain name = (is_empty_text name ≡ false) × (no_comma name ≡ true) × (strip name ≡ name)

split-last : (name : String) → no_comma name ≡ true → split_commas name ≡ name ∷ []
split-last String.[] h = refl
split-last (String.◌∷◌ c s) h = ground (arith, split-last s)

split-concat :
    (name rest : String)
    → no_comma name ≡ true
    → split_commas (concat name (concat comma rest)) ≡ name ∷ split_commas rest
split-concat String.[] rest h = refl
split-concat (String.◌∷◌ c s) rest h = ground (arith, split-concat s rest)

split-join :
    (name : String) (names : List String)
    → All IsPlain (name ∷ names)
    → split_commas (join_csv (name ∷ names)) ≡ name ∷ names
split-join name [] h = split-last name h.0.1
split-join name (other ∷ names) h =
    split-concat name (join_csv (other ∷ names)) h.0.1
    ∙ ap (λ parts. name ∷ parts) (split-join other names h.1)

kept-plain : (names : List String) → All IsPlain names → kept names ≡ names
kept-plain [] h = refl
kept-plain (name ∷ names) h = ground (arith, kept-plain names)

is_empty_text-join :
    (name : String) (names : List String)
    → is_empty_text name ≡ false
    → is_empty_text (join_csv (name ∷ names)) ≡ false
is_empty_text-join name [] h = h
is_empty_text-join String.[] (other ∷ names) h = refl
is_empty_text-join (String.◌∷◌ c s) (other ∷ names) h = refl

-- Names that are not empty, hold no comma and have no white space at their ends are read back from
-- their column as they were written, in their order.
pub split_csv-join : (names : List String) → All IsPlain names → split_csv (join_csv names) ≡ names
unfolding split_csv
split_csv-join [] h = refl
split_csv-join (name ∷ names) h =
    rw (is_empty_text-join name names h.0.0)
      (ap kept (split-join name names h) ∙ kept-plain (name ∷ names) h)
