-- ===== src/Users/Admin.antt =====
-- The one administrator and the pool of src/api/users.py, over any calls of the store.
use forex_ea.Prelude.{
  subst, ◌≡◌, ◌≢◌, ◌↔◌, refl, sym, ap, ◌∙◌, Option, none, some, List, [], ◌∷◌, String, Bool-cases,
  inl, inr,
}
use forex_ea.Table.{
  Table, lookup, upsert, delete, modify, changed, ◌==◌, string_eq, lookup-modify, lookup-upsert,
  lookup-delete,
}
use forex_ea.Users.{UserStore, UserRow, UserRole, admin_ad_id, get_role}
use forex_ea.Users.Calls.{UserCall, perform, after_calls}
use forex_ea.Users.Steps.{Step, IsSeed, perform-Step}

abbrev role_of : Option UserRow → Option UserRole
role_of none = none
role_of (some row) = some row.role

role_of-changed :
    (change : UserRow → UserRow)
    → ((row : UserRow) → (change row).role ≡ row.role)
    → (o : Option UserRow) → role_of (changed change o) ≡ role_of o
role_of-changed change keeps none = refl
role_of-changed change keeps (some row) = ap some (keeps row)

role_of-modify :
    (name j : String) (change : UserRow → UserRow) (t : Table String UserRow)
    → ((row : UserRow) → (change row).role ≡ row.role)
    → role_of (lookup j (modify name change t)) ≡ role_of (lookup j t)
role_of-modify name j change t keeps = elim (Bool-cases (name == j)) [
  | inl same ↦ rw (lookup-modify name j change t, same) (role_of-changed change keeps (lookup j t))
  | inr other ↦ rw (lookup-modify name j change t, other)
]

-- Whoever is an administrator in the table has the reserved name.
abbrev TableOnly : Table String UserRow → Type 0
TableOnly t = (name : String) → role_of (lookup name t) ≡ some UserRole.admin → name ≡ admin_ad_id

abbrev TableHas : Table String UserRow → Type 0
TableHas t = role_of (lookup admin_ad_id t) ≡ some UserRole.admin

module _ (t : Table String UserRow) (name : String) where
  modify-TableOnly :
      (change : UserRow → UserRow)
      → ((row : UserRow) → (change row).role ≡ row.role)
      → TableOnly t
      → TableOnly (modify name change t)
  modify-TableOnly change keeps only j k = only j (sym (role_of-modify name j change t keeps) ∙ k)

  upsert-TableOnly :
      (row : UserRow)
      → (row.role ≡ UserRole.admin → name ≡ admin_ad_id)
      → TableOnly t
      → TableOnly (upsert name row t)
  upsert-TableOnly row h only j k = elim (Bool-cases (name == j)) [
    | inl same ↦
        sym ((string_eq.beq_iff name j).0 same)
        ∙ h (cc (rw (lookup-upsert name j row t, same) at k))
    | inr other ↦ only j (rw (lookup-upsert name j row t, other) at k)
  ]

  delete-TableOnly : TableOnly t → TableOnly (delete name t)
  delete-TableOnly only j k = elim (Bool-cases (name == j)) [
    | inl same ↦ cc (rw (lookup-delete name j t, same) at k)
    | inr other ↦ only j (rw (lookup-delete name j t, other) at k)
  ]

  upsert-TableHas :
      (row : UserRow) → lookup name t ≡ none → TableHas t → TableHas (upsert name row t)
  upsert-TableHas row absent has = elim (Bool-cases (name == admin_ad_id)) [
    | inl same ↦ cc (
      has,
      ap (λ x. role_of (lookup x t)) ((string_eq.beq_iff name admin_ad_id).0 same),
      ap role_of absent,
    )
    | inr other ↦ rw (lookup-upsert name admin_ad_id row t, other) has
  ]

  delete-TableHas : name ≢ admin_ad_id → TableHas t → TableHas (delete name t)
  delete-TableHas ne has = elim (Bool-cases (name == admin_ad_id)) [
    | inl same ↦ absurd (ne ((string_eq.beq_iff name admin_ad_id).0 same))
    | inr other ↦ rw (lookup-delete name admin_ad_id t, other) has
  ]

-- The reserved name is the only one of an administrator, and has that role where it had it before.
abbrev IsSingle : Table String UserRow → Table String UserRow → Type 0
IsSingle t u = (TableOnly t → TableOnly u) × (TableHas t → TableHas u)

module _ (May : Type 0) (s : UserStore) where
  step-IsSingle : (s' : UserStore) → Step May s s' → IsSingle s.users s'.users
  step-IsSingle _ (Step.kept s' e _) = rw e (λ h. h, λ h. h)
  step-IsSingle _ (Step.pooled s' e _) = rw e (λ h. h, λ h. h)
  step-IsSingle _ (Step.changes s' name change keeps e _) = rw e (
    modify-TableOnly s.users name change keeps,
    λ has. role_of-modify name admin_ad_id change s.users keeps ∙ has,
  )
  step-IsSingle _ (Step.assigns s' name row ne role absent e _) = rw e (
    upsert-TableOnly s.users name row (λ h. cc (role, h)),
    upsert-TableHas s.users name row absent,
  )
  step-IsSingle _ (Step.reassigns s' name change keeps _ _ e _) = rw e (
    modify-TableOnly s.users name change keeps,
    λ has. role_of-modify name admin_ad_id change s.users keeps ∙ has,
  )
  step-IsSingle _ (Step.seeds may s' name row h absent e _) =
      rw e (upsert-TableOnly s.users name row h, upsert-TableHas s.users name row absent)
  step-IsSingle _ (Step.deletes s' name ne e _) =
      rw e (delete-TableOnly s.users name, delete-TableHas s.users name ne)

calls-IsSingle :
    (hash_ea_key : String → String) (calls : List UserCall) (s : UserStore)
    → IsSingle s.users (after_calls hash_ea_key s calls).users
calls-IsSingle hash_ea_key [] s = (λ h. h, λ h. h)
calls-IsSingle hash_ea_key (call ∷ calls) s =
    let s' : UserStore = perform hash_ea_key s call in
    let step = step-IsSingle (IsSeed call) s s' (perform-Step s hash_ea_key call) in
    let rest = calls-IsSingle hash_ea_key calls s' in
    (λ h. rest.0 (step.0 h), λ h. rest.1 (step.1 h))

-- Whatever calls are made of a store in which exactly the reserved name is an administrator, exactly
-- that name is one afterwards: no call makes another administrator, and none deletes, replaces or
-- demotes the one there is.
pub after_calls-admin :
    (hash_ea_key : String → String) (calls : List UserCall) (s : UserStore)
    → ((name : String) → (get_role name s ≡ some UserRole.admin) ↔ (name ≡ admin_ad_id))
    → (name : String)
    → (get_role name (after_calls hash_ea_key s calls) ≡ some UserRole.admin) ↔ (name ≡ admin_ad_id)
unfolding get_role
after_calls-admin hash_ea_key calls s only name =
    let single = calls-IsSingle hash_ea_key calls s in
    let has = single.1 ((only admin_ad_id).1 refl) in
    let final : Table String UserRow = (after_calls hash_ea_key s calls).users in
    (
      single.0 (λ j. (only j).0) name,
      λ same. subst (λ j. role_of (lookup j final) ≡ some UserRole.admin) (sym same) has,
    )
