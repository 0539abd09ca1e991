-- ===== src/Users/Picked.antt =====
-- What is read of a user's picks after they are written: src/api/users.py.
use forex_ea.Prelude.{
  ◌≡◌, refl, sym, ap, ◌∙◌, true, false, not, List, [], ◌∷◌, ◌++◌, String, select, arith, Bool-cases,
  inl, inr, if◌then◌else◌,
}
use mathlib.Core.List.{append_assoc, append-nil}
use forex_ea.Table.{◌==◌, string_eq, ==-refl}
use forex_ea.Users.{UserStore, Pick, PickKind, is_in}
use forex_ea.Users.Picks.{
  set_user_picks, get_user_picks, same_kind, is_picked, add_pick, add_kind, names_of,
}
use forex_ea.Signup.Picks.{distinct}

abbrev pick : String → PickKind → String → Pick
pick username kind name = record { username = username; strategy = name; kind = kind }

same_kind_refl : (kind : PickKind) → same_kind kind kind ≡ true
same_kind_refl PickKind.signal = refl
same_kind_refl PickKind.execute = refl

same_kind_sym : (k l : PickKind) → same_kind k l ≡ same_kind l k
same_kind_sym PickKind.signal PickKind.signal = refl
same_kind_sym PickKind.signal PickKind.execute = refl
same_kind_sym PickKind.execute PickKind.signal = refl
same_kind_sym PickKind.execute PickKind.execute = refl

is_in-middle :
    (name x : String) (xs ys : List String)
    → is_in x (xs ++ name ∷ ys) ≡ false
    → (name == x) ≡ false
is_in-middle name x [] ys h = ground arith
is_in-middle name x (y ∷ xs) ys h = is_in-middle name x xs ys (ground arith)

distinct_middle :
    (name : String) (xs ys : List String)
    → distinct (xs ++ name ∷ ys) ≡ true
    → is_in name xs ≡ false
distinct_middle name [] ys h = refl
distinct_middle name (x ∷ xs) ys h = ground (
  arith,
  distinct_middle name xs ys,
  is_in-middle name x xs ys,
  string_eq.beq_iff x name,
  string_eq.beq_iff name x,
)

module _ (u : String) (kind : PickKind) where
  is_picked-names :
      (name : String) (ps : List Pick)
      → is_picked (pick u kind name) ps ≡ is_in name (names_of u kind ps)
  is_picked-names name [] = refl
  is_picked-names name (p ∷ ps) = ground (
    arith,
    is_picked-names name ps,
    string_eq.beq_iff u p.username,
    string_eq.beq_iff p.username u,
    string_eq.beq_iff name p.strategy,
    string_eq.beq_iff p.strategy name,
    same_kind_sym kind p.kind,
  )

  names_of-append :
      (ps : List Pick) (p : Pick)
      → names_of u kind (ps ++ p ∷ []) ≡ names_of u kind ps ++ names_of u kind (p ∷ [])
  names_of-append [] p = refl
  names_of-append (q ∷ ps) p = ground (arith, names_of-append ps p)

  names_of-pick :
      (l : PickKind) (name : String)
      → names_of u kind (pick u l name ∷ []) ≡ (if same_kind l kind then name ∷ [] else [])
  names_of-pick l name = rw (==-refl u)

  add_pick-other :
      (l : PickKind) (name : String) (ps : List Pick)
      → same_kind l kind ≡ false
      → names_of u kind (add_pick ps (pick u l name)) ≡ names_of u kind ps
  add_pick-other l name ps h = elim (Bool-cases (is_picked (pick u l name) ps)) [
    | inl there ↦ rw there
    | inr new ↦
        rw (new, names_of-append ps (pick u l name), names_of-pick l name, h)
          (append-nil (names_of u kind ps))
  ]

  add_kind-other :
      (l : PickKind) (names : List String) (ps : List Pick)
      → same_kind l kind ≡ false
      → names_of u kind (add_kind u l names ps) ≡ names_of u kind ps
  add_kind-other l [] ps h = refl
  add_kind-other l (name ∷ names) ps h =
      add_kind-other l names (add_pick ps (pick u l name)) h ∙ add_pick-other l name ps h

  add_pick-new :
      (name : String) (ps : List Pick)
      → is_in name (names_of u kind ps) ≡ false
      → names_of u kind (add_pick ps (pick u kind name)) ≡ names_of u kind ps ++ name ∷ []
  add_pick-new name ps h = rw (
    is_picked-names name ps,
    h,
    names_of-append ps (pick u kind name),
    names_of-pick kind name,
    same_kind_refl kind,
  )

  add_kind-names :
      (names : List String) (ps : List Pick)
      → distinct (names_of u kind ps ++ names) ≡ true
      → names_of u kind (add_kind u kind names ps) ≡ names_of u kind ps ++ names
  add_kind-names [] ps h = sym (append-nil (names_of u kind ps))
  add_kind-names (name ∷ names) ps h =
      let new : is_in name (names_of u kind ps) ≡ false =
        distinct_middle name (names_of u kind ps) names h in
      let once = add_pick-new name ps new in
      let moved = append_assoc (names_of u kind ps) (name ∷ []) names in
      add_kind-names names (add_pick ps (pick u kind name)) (rw (once, moved) h)
      ∙ ap (λ xs. xs ++ names) once
      ∙ moved

  names_of-dropped :
      (ps : List Pick) → names_of u kind (select (λ (p : Pick). not (p.username == u)) ps) ≡ []
  names_of-dropped [] = refl
  names_of-dropped (p ∷ ps) = ground (arith, names_of-dropped ps)

-- What is read of a user's picks after they are written is what was written, of both kinds, in its
-- order, when each list names no strategy twice.
pub get_user_picks-set :
    (u : String) (signals executes : List String) (s : UserStore)
    → distinct signals ≡ true
    → distinct executes ≡ true
    → (get_user_picks u PickKind.signal (set_user_picks u signals executes s) ≡ signals)
      × (get_user_picks u PickKind.execute (set_user_picks u signals executes s) ≡ executes)
unfolding get_user_picks set_user_picks
get_user_picks-set u signals executes s hs he =
    let kept = select (λ (p : Pick). not (p.username == u)) s.picks in
    let written = add_kind u PickKind.signal signals kept in
    let none_left = names_of-dropped u PickKind.signal s.picks in
    let no_execute =
      add_kind-other u PickKind.execute PickKind.signal signals kept refl
      ∙ names_of-dropped u PickKind.execute s.picks in
    (
      add_kind-other u PickKind.signal PickKind.execute executes written refl
          ∙ add_kind-names u PickKind.signal signals kept (rw none_left hs)
          ∙ ap (λ xs. xs ++ signals) none_left,
      add_kind-names u PickKind.execute executes written (rw no_execute he)
          ∙ ap (λ xs. xs ++ executes) no_execute,
    )
