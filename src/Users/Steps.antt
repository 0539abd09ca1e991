-- ===== src/Users/Steps.antt =====
-- What each write of src/api/users.py does to the table `auth_users`: it changes a row in place and
-- keeps its role, adds a row for a name that has none, or deletes one.
use forex_ea.Prelude.{
  ℕ, zero, suc, ◌-◌, ◌≡◌, ◌≢◌, refl, subst, Bool, true, false, not, ◌||◌, Option, none, some, List,
  [], ◌∷◌, ◌++◌, String, arith, Bool-cases, Option-cases, inl, inr, leb,
}
use forex_ea.Table.{lookup, upsert, delete, modify, ◌==◌, string_eq}
use forex_ea.Users.{
  UserStore, UserRow, UserRole, Grant, admin_ad_id, is_in, is_none, is_set, refill, refill_pool,
  claim_ad_id, assign, extend, mark_notified, create_admin, create, insert_user, set_password,
  set_telegram_chat_id, delete_user, mark_token_used, without, fresh_row, pool_size, admin_count,
  assigned_row,
}
use forex_ea.Text.{codes, starts_with}
use forex_ea.Users.Keys.{
  ensure_ea_api_key, rotate_ea_api_key, get_username_by_ea_key, store_ea_key, name_where, by_hash,
  holds_text,
}
use forex_ea.Users.Picks.{set_user_picks}
use forex_ea.Users.Members.{is_in-append, is_in-without}
use forex_ea.Users.Calls.{UserCall, perform, or_same, or_same_with}

-- One step of the table and of the pool; rows are seeded only where they may be.
pub data Step (May : Type 0) (s : UserStore) : UserStore → Type 0 where
  -- Only what is neither is touched.
  kept : (s' : UserStore) → s'.users ≡ s.users → s'.pool ≡ s.pool → Step May s s'
  pooled :
      (s' : UserStore)
      → s'.users ≡ s.users
      → ((id : String)
          → is_in id s'.pool ≡ true
          → is_in id s.pool ≡ false
          → lookup id s.users ≡ none)
      → Step May s s'
  changes :
      (s' : UserStore) (name : String) (change : UserRow → UserRow)
      → ((row : UserRow) → (change row).role ≡ row.role)
      → s'.users ≡ modify name change s.users
      → s'.pool ≡ s.pool
      → Step May s s'
  assigns :
      (s' : UserStore) (name : String) (row : UserRow)
      → name ≢ admin_ad_id
      → row.role ≡ UserRole.user
      → lookup name s.users ≡ none
      → s'.users ≡ upsert name row s.users
      → s'.pool ≡ without name s.pool
      → Step May s s'
  reassigns :
      (s' : UserStore) (name : String) (change : UserRow → UserRow)
      → ((row : UserRow) → (change row).role ≡ row.role)
      → is_in name s.pool ≡ true
      → lookup name s.users ≢ none
      → s'.users ≡ modify name change s.users
      → s'.pool ≡ without name s.pool
      → Step May s s'
  seeds :
      May
      → (s' : UserStore) (name : String) (row : UserRow)
      → (row.role ≡ UserRole.admin → name ≡ admin_ad_id)
      → lookup name s.users ≡ none
      → s'.users ≡ upsert name row s.users
      → s'.pool ≡ s.pool
      → Step May s s'
  deletes :
      (s' : UserStore) (name : String)
      → name ≢ admin_ad_id
      → s'.users ≡ delete name s.users
      → s'.pool ≡ s.pool
      → Step May s s'

ne_of : (a b : String) → (a == b) ≡ false → a ≢ b
ne_of a b h k = cc (h, (string_eq.beq_iff a b).1 k)

none_of {ℓ} : {A : Type ℓ} (b : Bool) (o : Option A) → (b || not (is_none o)) ≡ false → o ≡ none
none_of true o h = cc h
none_of false none h = refl
none_of false (some a) h = cc h

-- What the refill adds is no user.
refill-pooled :
    (missing : ℕ) (drawn : List String) (s s' : UserStore)
    → refill missing drawn s ≡ some s'
    → (s'.users ≡ s.users)
      × ((id : String)
          → is_in id s'.pool ≡ true
          → is_in id s.pool ≡ false
          → lookup id s.users ≡ none)
unfolding refill
refill-pooled zero drawn s s' h = (cc h, λ id k old. cc (h, k, old))
refill-pooled (suc missing) [] s s' h = cc h
refill-pooled (suc missing) (candidate ∷ drawn) s s' h =
    elim (Bool-cases (is_in candidate s.pool || not (is_none (lookup candidate s.users)))) [
      | inl taken ↦ refill-pooled (suc missing) drawn s s' (rw (taken, refill) at h)
      | inr new ↦
          let s1 : UserStore = record s { pool = s.pool ++ candidate ∷ [] } in
          let rest = refill-pooled missing drawn s1 s' (rw (new, refill) at h) in
          (
            rest.0,
            λ id k old. elim (Bool-cases (candidate == id)) [
              | inl same ↦
                  subst (λ x. lookup x s.users ≡ none) ((string_eq.beq_iff candidate id).0 same)
                    (none_of _ _ new)
              | inr other ↦ rest.1 id k (rw (is_in-append id candidate s.pool, old, other) refl)
            ],
          )
    ]

refill_pool-pooled :
    (target : ℕ) (drawn : List String) (s s' : UserStore)
    → refill_pool target drawn s ≡ some s'
    → (s'.users ≡ s.users)
      × ((id : String)
          → is_in id s'.pool ≡ true
          → is_in id s.pool ≡ false
          → lookup id s.users ≡ none)
unfolding refill_pool
refill_pool-pooled target drawn s s' h = refill-pooled (target - pool_size s) drawn s s' h

module _ (May : Type 0) (s : UserStore) where
  assign-Step :
      (now : ℕ) (ad_id : String) (g : Grant) → Step May s (or_same_with (assign now ad_id g s) s)
  unfolding assign
  assign-Step now ad_id g = elim (Bool-cases (ad_id == admin_ad_id)) [
    | inl reserved ↦ rw reserved (kept s refl refl)
    | inr ordinary ↦ elim (Bool-cases (is_in ad_id s.pool)) [
      | inr missing ↦ rw (ordinary, missing) (kept s refl refl)
      | inl pooled_id ↦ elim (Option-cases (lookup ad_id s.users)) [
        | inl e ↦
            rw (ordinary, pooled_id, e)
              (assigns _ ad_id (assigned_row now g) (ne_of ad_id admin_ad_id ordinary) refl e refl
                refl)
        | inr (row, e) ↦ elim (Bool-cases (is_none row.password_hash)) [
          | inl pending ↦
              rw (ordinary, pooled_id, e, pending)
                (reassigns _ ad_id _ (λ row. refl) pooled_id (λ k. cc (e, k)) refl refl)
          | inr active ↦ rw (ordinary, pooled_id, e, active) (kept s refl refl)
        ]
      ]
    ]
  ]

  extend-Step :
      (now : ℕ) (username : String) (duration : ℕ)
      → Step May s (or_same_with (extend now username duration s) s)
  unfolding extend
  extend-Step now username duration = elim (Bool-cases (username == admin_ad_id)) [
    | inl reserved ↦ rw reserved (kept s refl refl)
    | inr ordinary ↦ elim (Option-cases (lookup username s.users)) [
      | inl e ↦ rw (ordinary, e) (kept s refl refl)
      | inr (row, e) ↦ rw (ordinary, e) (changes _ username _ (λ row. refl) refl refl)
    ]
  ]

  insert-Step :
      May
      → (name : String) (row : UserRow) → (row.role ≡ UserRole.admin → name ≡ admin_ad_id)
      → Step May s (or_same (insert_user name row s) s)
  insert-Step may name row h = elim (Option-cases (lookup name s.users)) [
    | inl e ↦ rw e (seeds may _ name row h e refl refl)
    | inr (old, e) ↦ rw e (kept s refl refl)
  ]

  seed-Step : May → (password_hash : String) → Step May s (or_same (create_admin password_hash s) s)
  unfolding create_admin
  seed-Step may password_hash = elim (Bool-cases (leb 1 (admin_count s))) [
    | inl taken ↦ rw taken (kept s refl refl)
    | inr free ↦
        rw free
          (insert-Step may admin_ad_id (fresh_row (some password_hash) UserRole.admin) (λ h. refl))
  ]

  create-Step :
      May
      → (username password_hash : String) (role : UserRole)
      → Step May s (or_same (create username password_hash role s) s)
  unfolding create
  create-Step may username password_hash UserRole.user =
      insert-Step may username (fresh_row (some password_hash) UserRole.user) (λ h. cc h)
  create-Step may username password_hash UserRole.admin =
      elim (Bool-cases (username == admin_ad_id)) [
        | inr other ↦ rw other (kept s refl refl)
        | inl same ↦ elim (Bool-cases (leb 1 (admin_count s))) [
          | inl taken ↦ rw (same, taken) (kept s refl refl)
          | inr free ↦
              rw (same, free)
                (insert-Step may username (fresh_row (some password_hash) UserRole.admin)
                  (λ h. (string_eq.beq_iff username admin_ad_id).0 same))
        ]
      ]

  delete-Step : (username : String) → Step May s (or_same_with (delete_user username s) s)
  unfolding delete_user
  delete-Step username = elim (Bool-cases (username == admin_ad_id)) [
    | inl reserved ↦ rw reserved (kept s refl refl)
    | inr ordinary ↦
        rw ordinary (deletes _ username (ne_of username admin_ad_id ordinary) refl refl)
  ]

  token-Step : (jti : String) → Step May s (mark_token_used jti s).0
  unfolding mark_token_used
  token-Step jti = elim (Bool-cases (is_in jti s.used_tokens)) [
    | inl used ↦ rw used (kept s refl refl)
    | inr new ↦ rw new (kept _ refl refl)
  ]

  module _ (hash_ea_key : String → String) where
    ensure-Step :
        (username new_key : String)
        → Step May s (or_same_with (ensure_ea_api_key hash_ea_key username new_key s) s)
    unfolding ensure_ea_api_key
    ensure-Step username new_key = elim (Option-cases (lookup username s.users)) [
      | inl e ↦ rw e (kept s refl refl)
      | inr (row, e) ↦ elim (Bool-cases (is_set row.ea_api_key)) [
        | inl legacy ↦ rw (e, legacy) (changes _ username _ (λ row. refl) refl refl)
        | inr none_left ↦ elim (Bool-cases (is_set row.ea_api_key_hash)) [
          | inl hashed ↦ rw (e, none_left, hashed) (kept s refl refl)
          | inr fresh ↦ rw (e, none_left, fresh) (changes _ username _ (λ row. refl) refl refl)
        ]
      ]
    ]

    rotate-Step :
        (username new_key : String)
        → Step May s (or_same_with (rotate_ea_api_key hash_ea_key username new_key s) s)
    unfolding rotate_ea_api_key
    rotate-Step username new_key = elim (Option-cases (lookup username s.users)) [
      | inl e ↦ rw e (kept s refl refl)
      | inr (row, e) ↦ rw e (changes _ username _ (λ row. refl) refl refl)
    ]

    by_hash-Step :
        (key : String) (found : Option String) → Step May s (by_hash hash_ea_key key found s).0
    unfolding store_ea_key
    by_hash-Step key (some username) = kept s refl refl
    by_hash-Step key none =
        elim (Option-cases (name_where (λ row. holds_text key row.ea_api_key) s.users)) [
          | inl e ↦ rw e (kept s refl refl)
          | inr (username, e) ↦ rw e (changes _ username _ (λ row. refl) refl refl)
        ]

    read-Step : (key : String) → Step May s (get_username_by_ea_key hash_ea_key key s).0
    unfolding get_username_by_ea_key
    read-Step key = elim (Bool-cases (starts_with (codes key) (codes "ea_"))) [
      | inr other ↦ rw other (kept s refl refl)
      | inl prefixed ↦ rw prefixed (
          by_hash-Step key
            (name_where (λ row. holds_text (hash_ea_key key) row.ea_api_key_hash) s.users))
    ]

-- A call of the seed scripts, which writes a row without an assignment.
abbrev pub IsSeed : UserCall → Type 0
IsSeed (UserCall.seeded password_hash) = Unit
IsSeed (UserCall.created username password_hash role) = Unit
IsSeed _ = ⊥

module _ (s : UserStore) (hash_ea_key : String → String) where
  -- Each call of the store is one such step.
  pub perform-Step : (call : UserCall) → Step (IsSeed call) s (perform hash_ea_key s call)
  unfolding perform claim_ad_id mark_notified set_password set_telegram_chat_id set_user_picks
  perform-Step (UserCall.refilled target drawn) = elim (Option-cases (refill_pool target drawn s)) [
    | inl e ↦ rw e (kept s refl refl)
    | inr (s', e) ↦
        rw e (let added = refill_pool-pooled target drawn s s' e in pooled s' added.0 added.1)
  ]
  perform-Step (UserCall.claimed ad_id) =
      pooled _ refl (λ id h k. ground (arith, is_in-without ad_id id s.pool))
  perform-Step (UserCall.assigned now ad_id g) = assign-Step ⊥ s now ad_id g
  perform-Step (UserCall.extended now username duration) = extend-Step ⊥ s now username duration
  perform-Step (UserCall.notified now username) = changes _ username _ (λ row. refl) refl refl
  perform-Step (UserCall.seeded password_hash) = seed-Step Unit s tt password_hash
  perform-Step (UserCall.created username password_hash role) =
      create-Step Unit s tt username password_hash role
  perform-Step (UserCall.password_set username new_hash) =
      changes _ username _ (λ row. refl) refl refl
  perform-Step (UserCall.chat_set username chat_id) = changes _ username _ (λ row. refl) refl refl
  perform-Step (UserCall.picked username signals executes) = kept _ refl refl
  perform-Step (UserCall.key_ensured username new_key) =
      ensure-Step ⊥ s hash_ea_key username new_key
  perform-Step (UserCall.key_rotated username new_key) =
      rotate-Step ⊥ s hash_ea_key username new_key
  perform-Step (UserCall.key_read key) = read-Step ⊥ s hash_ea_key key
  perform-Step (UserCall.deleted username) = delete-Step ⊥ s username
  perform-Step (UserCall.token_marked jti) = token-Step ⊥ s jti
