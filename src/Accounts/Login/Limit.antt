-- ===== src/Accounts/Login/Limit.antt =====
-- What the rate limiter of src/api/auth.py lets through in the log-in of src/api/server.py.
use forex_ea.Prelude.{
  ℕ, zero, suc, ◌+◌, ◌≤◌, ◌≡◌, refl, ap, ◌∙◌, Bool, true, false, Option, none, some, List, [], ◌∷◌,
  ◌++◌, String, length, ltb, arith, All, All-append, length-append, Bool-cases, inl, inr,
  if◌then◌else◌,
}
use forex_ea.Table.{lookup, upsert, ◌==◌, string_eq, lookup-upsert, lookup-delete, ==-refl}
use forex_ea.Users.{UserStore, UserRole}
use forex_ea.Accounts.{Response, http_error}
use forex_ea.Accounts.Login.{
  Hits, hits_of, recent, check, record_hit, reset, authenticate, after_check, login, window,
  max_attempts,
}

-- A log-in as the API receives it, with the accounts at that moment.
pub record Attempt : Type 0 where
  pub now : ℕ
  pub ip : String
  pub username : String
  pub password : String
  pub users : UserStore

module _ (verify_password : String → String → Bool) where
  -- What a client is answered in a run of log-ins of all clients.
  unfoldable pub answers : String → Hits → List Attempt → List (Response UserRole)
  answers ip hits [] = []
  answers ip hits (t ∷ ts) =
      let (hits', answer) = login verify_password t.now t.ip t.username t.password t.users hits in
      let rest = answers ip hits' ts in if t.ip == ip then answer ∷ rest else rest

  -- A client's log-ins lie in one window, and its credentials never fit.
  abbrev pub IsGuess : String → ℕ → Attempt → Type 0
  IsGuess ip start t =
      t.ip ≡ ip
      → (start ≤ t.now)
        × (t.now ≤ start + window)
        × (authenticate verify_password t.username t.password t.users ≡ none)

-- So many log-ins are tested and fail, the others are not even tested.
abbrev pub tested : ℕ → ℕ → List (Response UserRole)
tested left zero = []
tested zero (suc n) = http_error 429 ∷ tested zero n
tested (suc left) (suc n) = http_error 401 ∷ tested left n

abbrev pub count_of : String → List Attempt → ℕ
count_of ip [] = 0
count_of ip (t ∷ ts) = if t.ip == ip then suc (count_of ip ts) else count_of ip ts

recent-All :
    (start now : ℕ) (q : List ℕ)
    → now ≤ start + window
    → All (λ hit. start ≤ hit) q
    → recent now q ≡ q
recent-All start now [] h old = refl
recent-All start now (hit ∷ q) h old = ground arith

-- What is left of a row that another client's key is written to.
lookup-upsert_other :
    (other ip : String) (q : List ℕ) (hits : Hits)
    → (other == ip) ≡ false
    → lookup ip (upsert other q hits) ≡ lookup ip hits
lookup-upsert_other other ip q hits h = lookup-upsert other ip q hits ∙ rw h

module _ (verify_password : String → String → Bool) where
  after_check-other :
      (now : ℕ) (other ip : String) (hits : Hits) (ok : Bool) (role : Option UserRole)
      → (other == ip) ≡ false
      → lookup ip (after_check verify_password now other (hits, ok) role).0 ≡ lookup ip hits
  unfolding record_hit reset
  after_check-other now other ip hits false role h = refl
  after_check-other now other ip hits true none h = lookup-upsert_other other ip _ hits h
  after_check-other now other ip hits true (some role) h = lookup-delete other ip hits ∙ rw h

  after_check-fails :
      (now : ℕ) (ip : String) (hits : Hits) (ok : Bool) (q : List ℕ)
      → lookup ip hits ≡ some q
      → (hits_of (lookup ip (after_check verify_password now ip (hits, ok) none).0)
          ≡ (if ok then q ++ now ∷ [] else q))
        × ((after_check verify_password now ip (hits, ok) none).1
            ≡ (if ok then http_error 401 else http_error 429))
  unfolding record_hit
  after_check-fails now ip hits false q e = (ap hits_of e, refl)
  after_check-fails now ip hits true q e = (
    ap hits_of (lookup-upsert ip ip (hits_of (lookup ip hits) ++ now ∷ []) hits)
        ∙ rw (==-refl ip, e),
    refl,
  )

module _ (verify_password : String → String → Bool) (ip : String) where
  abbrev row : Hits → List ℕ
  row hits = hits_of (lookup ip hits)

  -- The log-ins of other clients leave the hits of a client alone.
  login-other :
      (now : ℕ) (other username password : String) (s : UserStore) (hits : Hits)
      → (other == ip) ≡ false
      → row (login verify_password now other username password s hits).0 ≡ row hits
  unfolding login check
  login-other now other username password s hits h =
      let q = recent now (hits_of (lookup other hits)) in
      ap hits_of (
        after_check-other verify_password now other ip (upsert other q hits)
          (ltb (length q) max_attempts) (authenticate verify_password username password s) h
        ∙ lookup-upsert_other other ip q hits h)

  -- A log-in that does not fit is counted where it is tested, and refused.
  login-fails :
      (start now : ℕ) (username password : String) (s : UserStore) (hits : Hits)
      → now ≤ start + window
      → All (λ hit. start ≤ hit) (row hits)
      → authenticate verify_password username password s ≡ none
      → let room = ltb (length (row hits)) max_attempts in
        (row (login verify_password now ip username password s hits).0
          ≡ (if room then row hits ++ now ∷ [] else row hits))
        × ((login verify_password now ip username password s hits).1
            ≡ (if room then http_error 401 else http_error 429))
  unfolding login check
  login-fails start now username password s hits h old wrong =
      let written : lookup ip (upsert ip (row hits) hits) ≡ some (row hits) =
        lookup-upsert ip ip (row hits) hits ∙ rw (==-refl ip) in
      rw (wrong, recent-All start now (row hits) h old)
        (after_check-fails verify_password now ip (upsert ip (row hits) hits)
          (ltb (length (row hits)) max_attempts) (row hits) written)

  login-fails_at :
      (start : ℕ) (t : Attempt) (hits : Hits)
      → t.ip ≡ ip
      → (start ≤ t.now)
        × (t.now ≤ start + window)
        × (authenticate verify_password t.username t.password t.users ≡ none)
      → All (λ hit. start ≤ hit) (row hits)
      → let room = ltb (length (row hits)) max_attempts in
        let after = login verify_password t.now t.ip t.username t.password t.users hits in
        (row after.0 ≡ (if room then row hits ++ t.now ∷ [] else row hits))
        × (after.1 ≡ (if room then http_error 401 else http_error 429))
  login-fails_at start t hits e (from, to, wrong) old =
      rw e (login-fails start t.now t.username t.password t.users hits to old wrong)

  -- A log-in of the client itself, when the claim holds of the later ones.
  counted :
      (start left : ℕ) (t : Attempt) (ts : List Attempt) (hits : Hits)
      → t.ip ≡ ip
      → (start ≤ t.now)
        × (t.now ≤ start + window)
        × (authenticate verify_password t.username t.password t.users ≡ none)
      → All (λ hit. start ≤ hit) (row hits)
      → length (row hits) + left ≡ max_attempts
      → ((left' : ℕ) (hits' : Hits)
          → All (λ hit. start ≤ hit) (row hits')
          → length (row hits') + left' ≡ max_attempts
          → answers verify_password ip hits' ts ≡ tested left' (count_of ip ts))
      → let after = login verify_password t.now t.ip t.username t.password t.users hits in
        (after.1 ∷ answers verify_password ip after.0 ts) ≡ tested left (suc (count_of ip ts))
  counted start zero t ts hits e g old room rest =
      let (kept, refused) = login-fails_at start t hits e g old in
      let full : ltb (length (row hits)) max_attempts ≡ false = ground arith in
      let same = rw full at kept in
      rw (refused, full) (ap (λ r. http_error 429 ∷ r) (rest zero _ (rw same old) (rw same room)))
  counted start (suc left) t ts hits e g old room rest =
      let (grown, refused) = login-fails_at start t hits e g old in
      let free : ltb (length (row hits)) max_attempts ≡ true = ground arith in
      let more = rw free at grown in
      rw (refused, free)
        (ap (λ r. http_error 401 ∷ r)
          (rest left _
            (rw more (All-append (λ hit. start ≤ hit) (row hits) (t.now ∷ []) old (g.0, tt)))
            (rw more (omega (arith, length-append (row hits) (t.now ∷ []))))))

  -- As many are tested as the row has room for.
  answers-tested :
      (start left : ℕ) (attempts : List Attempt) (hits : Hits)
      → All (IsGuess verify_password ip start) attempts
      → All (λ hit. start ≤ hit) (row hits)
      → length (row hits) + left ≡ max_attempts
      → answers verify_password ip hits attempts ≡ tested left (count_of ip attempts)
  unfolding answers
  answers-tested start left [] hits guesses old room = refl
  answers-tested start left (t ∷ ts) hits guesses old room = elim (Bool-cases (t.ip == ip)) [
    | inr other ↦ rw other (
        answers-tested start left ts
          (login verify_password t.now t.ip t.username t.password t.users hits).0 guesses.1
          (rw (login-other t.now t.ip t.username t.password t.users hits other) old)
          (rw (login-other t.now t.ip t.username t.password t.users hits other) room))
    | inl same ↦
        let e = (string_eq.beq_iff t.ip ip).0 same in
        rw same (
          counted start left t ts hits e (guesses.0 e) old room
            (λ left' hits' o r. answers-tested start left' ts hits' guesses.1 o r))
  ]

-- A client whose log-ins all lie within 15 minutes, and never fit an account, has at most five of them
-- tested, whatever the other clients do meanwhile: the first five are answered 401, and every later one
-- 429, if the limiter held nothing of the client before.
pub answers-limited :
    (verify_password : String → String → Bool) (ip : String) (start : ℕ) (hits : Hits)
    (attempts : List Attempt)
    → lookup ip hits ≡ none
    → All (IsGuess verify_password ip start) attempts
    → answers verify_password ip hits attempts ≡ tested 5 (count_of ip attempts)
answers-limited verify_password ip start hits attempts empty guesses =
    answers-tested verify_password ip start 5 attempts hits guesses (rw empty tt) (rw empty)
