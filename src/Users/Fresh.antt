-- ===== src/Users/Fresh.antt =====
-- The IDs of the pool and the accounts in src/api/users.py: an ID that can be assigned belongs to nobody.
use forex_ea.Prelude.{
  if◌then◌else◌, ℕ, ◌≡◌, refl, ◌∙◌, true, false, Option, none, some, List, [], ◌∷◌, String, arith,
  All, Bool-cases, inl, inr,
}
use forex_ea.Result.{ok}
use forex_ea.Table.{
  Table, lookup, upsert, modify, changed, ◌==◌, string_eq, lookup-modify, lookup-upsert,
  lookup-delete, ==-refl,
}
use forex_ea.Users.{UserStore, UserRow, Grant, admin_ad_id, is_in, without, assign, assigned_row}
use forex_ea.Users.Members.{is_in-without}
use forex_ea.Users.Calls.{UserCall, perform, after_calls}
use forex_ea.Users.Steps.{Step, IsSeed, perform-Step}

abbrev pub IsFresh : UserStore → Type 0
IsFresh s = (id : String) → is_in id s.pool ≡ true → lookup id s.users ≡ none

changed-none :
    (change : UserRow → UserRow) (o : Option UserRow) → o ≡ none → changed change o ≡ none
changed-none change o h = rw h

modify-none :
    (name id : String) (change : UserRow → UserRow) (t : Table String UserRow)
    → lookup id t ≡ none
    → lookup id (modify name change t) ≡ none
modify-none name id change t h = elim (Bool-cases (name == id)) [
  | inl same ↦ rw (lookup-modify name id change t, same) (changed-none change (lookup id t) h)
  | inr other ↦ rw (lookup-modify name id change t, other) h
]

-- An ID that is left in the pool is another one, and was there.
left_in :
    (name id : String) (pool : List String)
    → is_in id (without name pool) ≡ true
    → (is_in id pool ≡ true) × ((name == id) ≡ false)
left_in name id pool h = ground (arith, is_in-without name id pool)

module _ (May : Type 0) (s : UserStore) (closed : ¬ May) where
  step-IsFresh : (s' : UserStore) → Step May s s' → IsFresh s → IsFresh s'
  step-IsFresh _ (Step.kept s' e p) fresh id h = rw e (fresh id (rw p at h))
  step-IsFresh _ (Step.pooled s' e p) fresh id h =
      rw e (elim (Bool-cases (is_in id s.pool)) [ inl old ↦ fresh id old | inr new ↦ p id h new ])
  step-IsFresh _ (Step.changes s' name change keeps e p) fresh id h =
      rw e (modify-none name id change s.users (fresh id (rw p at h)))
  step-IsFresh _ (Step.assigns s' name row ne role absent e p) fresh id h =
      let left = left_in name id s.pool (rw p at h) in
      rw (e, lookup-upsert name id row s.users, left.1) (fresh id left.0)
  step-IsFresh _ (Step.reassigns s' name change keeps _ _ e p) fresh id h =
      let left = left_in name id s.pool (rw p at h) in
      rw e (modify-none name id change s.users (fresh id left.0))
  step-IsFresh _ (Step.seeds may s' name row _ absent e p) fresh id h = absurd (closed may)
  step-IsFresh _ (Step.deletes s' name ne e p) fresh id h =
      rw (e, lookup-delete name id s.users)
        (elim (Bool-cases (name == id)) [
          | inl same ↦ rw same
          | inr other ↦ rw other (fresh id (rw p at h))
        ])

-- The calls that the API makes: all but the seed scripts'.
abbrev pub IsApiCall : UserCall → Type 0
IsApiCall call = ¬ (IsSeed call)

pub calls-IsFresh :
    (hash_ea_key : String → String) (calls : List UserCall) (s : UserStore)
    → All IsApiCall calls
    → IsFresh s
    → IsFresh (after_calls hash_ea_key s calls)
calls-IsFresh hash_ea_key [] s api fresh = fresh
calls-IsFresh hash_ea_key (call ∷ calls) s api fresh =
    let s' : UserStore = perform hash_ea_key s call in
    calls-IsFresh hash_ea_key calls s' api.1
      (step-IsFresh (IsSeed call) s api.0 s' (perform-Step s hash_ea_key call) fresh)

-- What an assignment has done that returned.
pub record IsAssigned (now : ℕ) (ad_id : String) (g : Grant) (s : UserStore) (s' : UserStore)
    : Type 0 where
  pub was_pooled : is_in ad_id s.pool ≡ true
  pub was_new : lookup ad_id s.users ≡ none
  pub accounts :
      (j : String)
      → lookup j s'.users ≡ (if ad_id == j then some (assigned_row now g) else lookup j s.users)
  pub is_claimed : is_in ad_id s'.pool ≡ false
  pub picks_stay : s'.picks ≡ s.picks

placed : ℕ → String → Grant → UserStore → UserStore
placed now ad_id g s = record s {
  pool = without ad_id s.pool;
  users = upsert ad_id (assigned_row now g) s.users;
}

assign_cases :
    (now : ℕ) (ad_id : String) (g : Grant) (s s' : UserStore) (e : Option ℕ)
    → IsFresh s
    → assign now ad_id g s ≡ ok (s', e)
    → (is_in ad_id s.pool ≡ true) × (s' ≡ placed now ad_id g s)
unfolding assign placed
assign_cases now ad_id g s s' e fresh h = elim (Bool-cases (ad_id == admin_ad_id)) [
  | inl reserved ↦ cc (rw reserved at h)
  | inr ordinary ↦ elim (Bool-cases (is_in ad_id s.pool)) [
    | inr missing ↦ cc (rw (ordinary, missing) at h)
    | inl pooled ↦ (pooled, cc (rw (ordinary, pooled, fresh ad_id pooled) at h))
  ]
]

pub assign-IsAssigned :
    (now : ℕ) (ad_id : String) (g : Grant) (s s' : UserStore) (e : Option ℕ)
    → IsFresh s
    → assign now ad_id g s ≡ ok (s', e)
    → IsAssigned now ad_id g s s'
unfolding placed
assign-IsAssigned now ad_id g s s' e fresh h =
    let (pooled, same) = assign_cases now ad_id g s s' e fresh h in
    rw same (record {
      was_pooled = pooled;
      was_new = fresh ad_id pooled;
      accounts = λ j. lookup-upsert ad_id j (assigned_row now g) s.users;
      is_claimed = is_in-without ad_id ad_id s.pool ∙ rw (pooled, ==-refl ad_id);
      picks_stay = refl;
    })

-- Through whatever calls of the API, from a store whose pooled IDs belong to nobody: an assignment that
-- returns after them has taken its ID out of the pool and written a new account without a password,
-- with the role of a user and the granted subscription; it has overwritten no account, changed no other
-- one, and left the picks alone.
pub assign-after_calls :
    (hash_ea_key : String → String) (calls : List UserCall) (s s' : UserStore) (now : ℕ)
    (ad_id : String) (g : Grant) (e : Option ℕ)
    → All IsApiCall calls
    → IsFresh s
    → assign now ad_id g (after_calls hash_ea_key s calls) ≡ ok (s', e)
    → IsAssigned now ad_id g (after_calls hash_ea_key s calls) s'
assign-after_calls hash_ea_key calls s s' now ad_id g e api fresh h =
    assign-IsAssigned now ad_id g (after_calls hash_ea_key s calls) s' e
      (calls-IsFresh hash_ea_key calls s api fresh) h
