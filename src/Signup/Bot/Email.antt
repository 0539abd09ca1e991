-- ===== src/Signup/Bot/Email.antt =====
-- `EMAIL_RE` of src/api/telegram_signup.py, on ASCII texts without a line feed: the part before the
-- first `@`, that before the domain's first dot, and the rest are not empty and of allowed characters.
use forex_ea.Prelude.{
  ℕ, Bool, true, false, not, ◌&&◌, ◌||◌, List, [], ◌∷◌, String, leb, nat_beq, is_empty,
  if◌then◌else◌,
}
use forex_ea.Text.{codes, is_alpha}

abbrev is_word : ℕ → Bool
is_word c = is_alpha c || (leb b'0' c && leb c b'9') || nat_beq c b'_'

abbrev in_local : ℕ → Bool
in_local c = is_word c || nat_beq c b'.' || nat_beq c b'+' || nat_beq c b'-'

abbrev in_host : ℕ → Bool
in_host c = is_word c || nat_beq c b'-'

abbrev in_domain : ℕ → Bool
in_domain c = is_word c || nat_beq c b'.' || nat_beq c b'-'

abbrev all_in : (ℕ → Bool) → List ℕ → Bool
all_in p [] = true
all_in p (c ∷ cs) = p c && all_in p cs

-- One or more characters of a class, then the mark, then what the rest must match; the class does not
-- hold the mark.
abbrev up_to : (ℕ → Bool) → ℕ → (List ℕ → Bool) → Bool → List ℕ → Bool
up_to p mark rest some_read [] = false
up_to p mark rest some_read (c ∷ cs) =
    let on = up_to p mark rest true cs in if nat_beq c mark then some_read && rest cs else p c && on

unfoldable pub is_email : String → Bool
is_email text =
    up_to in_local b'@' (up_to in_host b'.' (λ cs. not (is_empty cs) && all_in in_domain cs) false)
      false (codes text)
