-- ===== src/Accounts/Setup.antt =====
-- The setup links of src/api/server.py: what redeeming them does to the passwords and the tokens.
use forex_ea.Prelude.{
  ◌≡◌, refl, ap, ◌∙◌, true, Option, none, some, List, [], ◌∷◌, ◌++◌, String, Bool-cases,
  Option-cases, inl, inr,
}
use forex_ea.Result.{Result, ok, err}
use forex_ea.Table.{Table, OnRow, lookup, modify, changed, ◌==◌, string_eq, lookup-modify, ==-refl}
use forex_ea.Users.{UserStore, UserRow, is_in, is_set, known_hash, get_hash, set_password}
use forex_ea.Users.Members.{is_in-append}
use forex_ea.Users.Keys.{ensure_ea_api_key, keyed_row, text_of}
use forex_ea.Accounts.{
  SetupClaims, Decoded, claims, expired_token, invalid_token, http_error, complete_setup, activate,
  ensured, first,
}

-- An attempt to redeem a link: what its token decodes to, the hash of the password (or the refusal to
-- hash it), and the EA key that is drawn.
pub record Attempt : Type 0 where
  pub decoded : Decoded
  pub pw_hash : Result String
  pub new_key : String

-- Tokens stay used, and passwords that are set stay what they are.
abbrev Kept : UserStore → UserStore → Type 0
Kept s s' =
    ((jti : String) → is_in jti s.used_tokens ≡ true → is_in jti s'.used_tokens ≡ true)
    × ((j hash : String) → get_hash j s ≡ some hash → get_hash j s' ≡ some hash)

Kept-refl : (s : UserStore) → Kept s s
Kept-refl s = (λ jti h. h, λ j hash h. h)

Kept-trans : (s t u : UserStore) → Kept s t → Kept t u → Kept s u
Kept-trans s t u h k =
    (λ jti used. k.0 jti (h.0 jti used), λ j hash held. k.1 j hash (h.1 j hash held))

hash-changed :
    (change : UserRow → UserRow)
    → ((row : UserRow) → (change row).password_hash ≡ row.password_hash)
    → (o : Option UserRow) → known_hash (changed change o) ≡ known_hash o
hash-changed change keeps none = refl
hash-changed change keeps (some row) = rw (keeps row)

hash-modify :
    (name j : String) (change : UserRow → UserRow) (t : Table String UserRow)
    → ((row : UserRow) → (change row).password_hash ≡ row.password_hash)
    → known_hash (lookup j (modify name change t)) ≡ known_hash (lookup j t)
hash-modify name j change t keeps = elim (Bool-cases (name == j)) [
  | inl same ↦ rw (lookup-modify name j change t, same) (hash-changed change keeps (lookup j t))
  | inr other ↦ rw (lookup-modify name j change t, other)
]

OnRow-held :
    {P : String → Type 0} (o : Option String)
    → ((hash : String) → o ≡ some hash → P hash)
    → OnRow P o
OnRow-held none h = tt
OnRow-held (some hash) h = h hash refl

abbrev marked : String → UserStore → UserStore
marked jti s = record s { used_tokens = s.used_tokens ++ jti ∷ [] }

marked-Kept : (jti : String) (s : UserStore) → Kept s (marked jti s)
unfolding get_hash
marked-Kept jti s = (λ i h. rw (is_in-append i jti s.used_tokens, h) refl, λ j hash h. h)

password-Kept :
    (username new_hash : String) (s : UserStore)
    → get_hash username s ≡ none
    → Kept s (set_password username new_hash s).0
unfolding set_password get_hash
password-Kept username new_hash s absent = (
  λ jti h. h,
  λ j hash h. elim (Bool-cases (username == j)) [
    | inl same ↦ cc (ap (λ x. get_hash x s) ((string_eq.beq_iff username j).0 same), absent, h)
    | inr other ↦
        rw
          (
            lookup-modify username j (λ row. record row { password_hash = some new_hash }) s.users,
            other,
          )
          h
  ],
)

module _ (hash_ea_key : String → String) where
  ensured-Kept :
      (username new_key : String) (s : UserStore) → Kept s (ensured hash_ea_key username new_key s)
  unfolding ensure_ea_api_key get_hash
  ensured-Kept username new_key s = elim (Option-cases (lookup username s.users)) [
    | inl e ↦ rw e (Kept-refl s)
    | inr (row, e) ↦ elim (Bool-cases (is_set row.ea_api_key)) [
      | inl legacy ↦
          rw (e, legacy)
            (
              λ jti h. h,
              λ j hash h.
                  hash-modify username j
                    (keyed_row hash_ea_key (text_of hash_ea_key row.ea_api_key)) s.users (λ r. refl)
                  ∙ h,
            )
      | inr unset ↦ elim (Bool-cases (is_set row.ea_api_key_hash)) [
        | inl hashed ↦ rw (e, unset, hashed) (Kept-refl s)
        | inr fresh ↦
            rw (e, unset, fresh)
              (
                λ jti h. h,
                λ j hash h.
                    hash-modify username j (keyed_row hash_ea_key new_key) s.users (λ r. refl) ∙ h,
              )
      ]
    ]
  ]

  activate-Kept :
      (c : SetupClaims) (pw_hash : Result String) (new_key : String) (s : UserStore)
      → Kept s (activate hash_ea_key c pw_hash new_key (get_hash c.ad_id s) s).0
  activate-Kept c pw_hash new_key s = elim (Option-cases (get_hash c.ad_id s)) [
    | inr (hash, e) ↦ rw e (Kept-refl s)
    | inl e ↦ rw e (fresh-Kept pw_hash e)
  ]
    where
      fresh-Kept :
          (pw : Result String)
          → get_hash c.ad_id s ≡ none
          → Kept s (activate hash_ea_key c pw new_key none s).0
      fresh-Kept (err raised) e = Kept-refl s
      fresh-Kept (ok hash) e =
          let s1 : UserStore = first (set_password c.ad_id hash s) in
          Kept-trans s s1 (ensured hash_ea_key c.ad_id new_key s1) (password-Kept c.ad_id hash s e)
            (ensured-Kept c.ad_id new_key s1)

  setup-Kept :
      (d : Decoded) (pw_hash : Result String) (new_key : String) (s : UserStore)
      → Kept s (complete_setup hash_ea_key d pw_hash new_key s).0
  unfolding complete_setup
  setup-Kept (claims c) pw_hash new_key s = elim (Bool-cases (is_in c.jti s.used_tokens)) [
    | inl used ↦ rw used (Kept-refl s)
    | inr new ↦ rw new (
        Kept-trans s (marked c.jti s)
          (activate hash_ea_key c pw_hash new_key (get_hash c.ad_id (marked c.jti s))
            (marked c.jti s)).0
          (marked-Kept c.jti s) (activate-Kept c pw_hash new_key (marked c.jti s)))
  ]
  setup-Kept expired_token pw_hash new_key s = Kept-refl s
  setup-Kept invalid_token pw_hash new_key s = Kept-refl s

  -- A token that is used up is refused, and nothing changes.
  used-refused :
      (c : SetupClaims) (pw_hash : Result String) (new_key : String) (s : UserStore)
      → is_in c.jti s.used_tokens ≡ true
      → complete_setup hash_ea_key (claims c) pw_hash new_key s ≡ (s, http_error 409)
  unfolding complete_setup
  used-refused c pw_hash new_key s h = rw h

  token-marked :
      (c : SetupClaims) (pw_hash : Result String) (new_key : String) (s : UserStore)
      → is_in c.jti (complete_setup hash_ea_key (claims c) pw_hash new_key s).0.used_tokens ≡ true
  unfolding complete_setup
  token-marked c pw_hash new_key s = elim (Bool-cases (is_in c.jti s.used_tokens)) [
    | inl used ↦ rw used used
    | inr new ↦ rw new (
        (activate-Kept c pw_hash new_key (marked c.jti s)).0 c.jti
          (rw (is_in-append c.jti c.jti s.used_tokens, new, ==-refl c.jti) refl))
  ]

  unfoldable pub after_attempts : UserStore → List Attempt → UserStore
  after_attempts s [] = s
  after_attempts s (t ∷ ts) =
      after_attempts (complete_setup hash_ea_key t.decoded t.pw_hash t.new_key s).0 ts

  attempts-Kept : (ts : List Attempt) (s : UserStore) → Kept s (after_attempts s ts)
  unfolding after_attempts
  attempts-Kept [] s = Kept-refl s
  attempts-Kept (t ∷ ts) s =
      let s1 : UserStore = (complete_setup hash_ea_key t.decoded t.pw_hash t.new_key s).0 in
      Kept-trans s s1 (after_attempts s1 ts) (setup-Kept t.decoded t.pw_hash t.new_key s)
        (attempts-Kept ts s1)

  -- A setup link works once, and no link changes a password that is set: after an attempt to redeem a
  -- link, successful or not, and any further attempts, each attempt with the link again answers 409 and
  -- changes nothing; and every password that was set is still the same.
  pub complete_setup_once :
      (c : SetupClaims) (pw again : Result String) (key new_key : String) (ts : List Attempt)
      (s : UserStore)
      → let s' : UserStore = after_attempts (complete_setup hash_ea_key (claims c) pw key s).0 ts in
        (complete_setup hash_ea_key (claims c) again new_key s' ≡ (s', http_error 409))
        × ((j : String) → OnRow (λ hash. get_hash j s' ≡ some hash) (get_hash j s))
  complete_setup_once c pw again key new_key ts s =
      let s1 : UserStore = (complete_setup hash_ea_key (claims c) pw key s).0 in
      let later = attempts-Kept ts s1 in
      (
        used-refused c again new_key (after_attempts s1 ts)
            (later.0 c.jti (token-marked c pw key s)),
        λ j.
            OnRow-held (get_hash j s)
              (λ hash h. later.1 j hash ((setup-Kept (claims c) pw key s).1 j hash h)),
      )
