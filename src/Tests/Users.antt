-- ===== src/Tests/Users.antt =====
-- Accounts, setup links and sign-ups at concrete inputs.
use forex_ea.Prelude.{
  ℕ, ◌≡◌, ◌↔◌, refl, sym, none, some, List, [], ◌∷◌, String, arith, Bool, true, false, subst,
  Bool-cases, inl, inr, ◌≤◌, ◌+◌,
}
use forex_ea.Result.{ok}
use forex_ea.Table.{◌==◌, string_eq, OnRow}
use forex_ea.Users.{
  UserStore, UserRole, Grant, admin_ad_id, fresh_row, get_role, get_hash, assign, assigned_row,
  delete_user, is_in,
}
use forex_ea.Users.Calls.{UserCall, perform, after_calls}
use forex_ea.Users.Admin.{after_calls-admin}
use forex_ea.Users.Fresh.{IsFresh, IsAssigned, assign-after_calls}
use forex_ea.Accounts.{SetupClaims, claims, complete_setup, http_error}
use forex_ea.Accounts.Setup
use forex_ea.Accounts.Setup.{complete_setup_once}
use forex_ea.Accounts.Login.{authenticate, window}
use forex_ea.Accounts.Login.Limit
use forex_ea.Accounts.Login.Limit.{IsGuess, answers, tested, count_of, answers-limited}

-- A store with the administrator, one ID in the pool and no other account.
abbrev start : UserStore
start = record {
  users = (admin_ad_id, fresh_row (some "hash") UserRole.admin) ∷ [];
  pool = "AD-0000000A" ∷ "AD-0000000B" ∷ [];
  used_tokens = [];
  picks = [];
}

abbrev grant : Grant
grant = record { email = "a@b.c"; duration = some 1_000; phone_number = none; display_name = none }

-- The keyed hash, instantiated.
abbrev plain_key : String → String
plain_key key = key

abbrev calls : List UserCall
calls =
    UserCall.assigned 5 "AD-0000000A" grant
    ∷ UserCall.created "AD-0000000A" "hash" UserRole.admin
    ∷ UserCall.deleted admin_ad_id
    ∷ []

abbrev api_calls : List UserCall
api_calls = UserCall.assigned 5 "AD-0000000A" grant ∷ UserCall.deleted admin_ad_id ∷ []

start-admin : (name : String) → (get_role name start ≡ some UserRole.admin) ↔ (name ≡ admin_ad_id)
unfolding get_role
start-admin name = (
  λ h. ground (arith, string_eq.beq_iff admin_ad_id name),
  λ h. subst (λ n. get_role n start ≡ some UserRole.admin) (sym h) refl,
)

after_calls-admin_example :
    (get_role "AD-0000000A" (after_calls plain_key start calls) ≡ some UserRole.admin)
    ↔ ◌≡◌ {A = String} "AD-0000000A" admin_ad_id
after_calls-admin_example = after_calls-admin plain_key calls start start-admin "AD-0000000A"

start-IsFresh : IsFresh start
start-IsFresh id h = elim (Bool-cases (admin_ad_id == id)) [
  | inr other ↦ rw other
  | inl same ↦
      let no : ◌≡◌ {A = Bool} false true =
        subst (λ i. is_in i start.pool ≡ true) (sym ((string_eq.beq_iff admin_ad_id id).0 same))
          h in
      cc no
]

-- The store after the calls and a further assignment.
abbrev later_store : UserStore
later_store = record start {
  users =
      (admin_ad_id, fresh_row (some "hash") UserRole.admin)
      ∷ ("AD-0000000A", assigned_row 5 grant)
      ∷ ("AD-0000000B", assigned_row 9 grant)
      ∷ [];
  pool = [];
}

assigned_later :
    assign 9 "AD-0000000B" grant (after_calls plain_key start api_calls)
    ≡ ok (later_store, some 1_009)
unfolding assign perform delete_user
assigned_later = refl

assign-after_calls_example :
    IsAssigned 9 "AD-0000000B" grant (after_calls plain_key start api_calls) later_store
assign-after_calls_example =
    assign-after_calls plain_key api_calls start later_store 9 "AD-0000000B" grant (some 1_009)
      (λ h. h, (λ h. h, tt)) start-IsFresh assigned_later

abbrev link : SetupClaims
link = record { ad_id = "AD-0000000A"; email = "a@b.c"; jti = "t1" }

abbrev other_link : Setup.Attempt
other_link = record {
  decoded = claims (record link { jti = "t2" });
  pw_hash = ok "other";
  new_key = "ea_2";
}

abbrev redeemed : UserStore
redeemed =
    Setup.after_attempts plain_key
      (complete_setup plain_key (claims link) (ok "first") "ea_1" later_store).0 (other_link ∷ [])

complete_setup_once_example :
    (complete_setup plain_key (claims link) (ok "again") "ea_3" redeemed
      ≡ (redeemed, http_error 409))
    × ((j : String) → OnRow (λ hash. get_hash j redeemed ≡ some hash) (get_hash j later_store))
complete_setup_once_example =
    complete_setup_once plain_key link (ok "first") (ok "again") "ea_1" "ea_3" (other_link ∷ [])
      later_store

-- A password that never fits.
abbrev never : String → String → Bool
never password hash = false

abbrev guess : ℕ → Limit.Attempt
guess now = record {
  now = now;
  ip = "10.0.0.1";
  username = admin_ad_id;
  password = "wrong";
  users = start;
}

abbrev guesses : List Limit.Attempt
guesses =
    guess 1
    ∷ guess 2
    ∷ guess 3
    ∷ record (guess 4) { ip = "10.0.0.2" }
    ∷ guess 5
    ∷ guess 6
    ∷ guess 7
    ∷ []

in_time :
    (ip : String) (n : ℕ)
    → 1 ≤ n
    → n ≤ 1 + window
    → IsGuess never "10.0.0.1" 1 (record (guess n) { ip = ip })
unfolding authenticate
in_time ip n from to e = (from, to, refl)

answers-limited_example :
    answers never "10.0.0.1" [] guesses ≡ tested 5 (count_of "10.0.0.1" guesses)
answers-limited_example = answers-limited never "10.0.0.1" 1 [] guesses refl (
  in_time "10.0.0.1" 1 (omega arith) (omega arith),
  (
    in_time "10.0.0.1" 2 (omega arith) (omega arith),
    (
      in_time "10.0.0.1" 3 (omega arith) (omega arith),
      (
        in_time "10.0.0.2" 4 (omega arith) (omega arith),
        (
          in_time "10.0.0.1" 5 (omega arith) (omega arith),
          (
            in_time "10.0.0.1" 6 (omega arith) (omega arith),
            (in_time "10.0.0.1" 7 (omega arith) (omega arith), tt),
          ),
        ),
      ),
    ),
  ),
)
