-- ===== src/Signup/Bot/Picking.antt =====
-- The taps on the picker keep the conversations in their stages: src/api/telegram_signup.py.
use forex_ea.Prelude.{
  ℕ, ◌≡◌, refl, subst, true, Option, none, some, List, String, length, Bool-cases, Option-cases,
  inl, inr,
}
use forex_ea.Table.{lookup, string_eq, nat_eq, OnRow, OnRows-modify}
use forex_ea.Users.{PickKind}
use forex_ea.Signup.{ChatRow, get_state, set_state_picks, with_picks, read_row}
use forex_ea.Signup.Csv.{IsPlain}
use forex_ea.Signup.Picks.{IsPicks, toggled-IsPicks, OnPicks}
use forex_ea.Signup.Bot.{
  SignupBot, Answers, picks_required, send_picker, refresh_picker, is_picking, picks_for,
  store_kind, keep_picks, handle_pick_toggle,
}
use forex_ea.Signup.Bot.Stage.{IsChat, IsSignup, signal-IsStage, execute-IsStage, read_back}

-- What the picker does leaves the store alone.
pub send_picker-store :
    (a : Answers) (chat_id : ℕ) (kind : PickKind) (selected : List String) (b : SignupBot)
    → (send_picker a chat_id kind selected b).store ≡ b.store
unfolding send_picker
send_picker-store a chat_id kind selected b = elim (Option-cases a.sent_id) [
  | inl e ↦ rw e
  | inr (msg_id, e) ↦ rw e
]

refresh_picker-store :
    (a : Answers) (chat_id : ℕ) (kind : PickKind) (selected : List String) (b : SignupBot)
    → (refresh_picker a chat_id kind selected b).store ≡ b.store
unfolding refresh_picker
refresh_picker-store a chat_id kind selected b = elim (Option-cases (lookup chat_id b.picker_msg)) [
  | inl e ↦ rw e (send_picker-store a chat_id kind selected b)
  | inr (msg_id, e) ↦ rw e (elim (Bool-cases a.edit_ok) [
    | inl done ↦ rw done
    | inr failed ↦ rw failed (send_picker-store a chat_id kind selected _)
  ])
]

module _ (a : Answers) (chat_id : ℕ) (b : SignupBot) (v : IsSignup b.store) where
  module _ (row : ChatRow) (e : lookup chat_id b.store.chats ≡ some row) (c : IsChat row) where
    keep-IsSignup :
        (kind : PickKind) (o : Option (List String))
        → is_picking kind row.state ≡ true
        → OnPicks (IsPicks (picks_required kind)) o
        → IsSignup (keep_picks a chat_id kind o b).store
    unfolding set_state_picks
    keep-IsSignup kind none h picks = v
    keep-IsSignup PickKind.signal (some current) h picks =
        let (xs, ys, ex, ey, hx, hy, stage, d) = c in
        rw
          (refresh_picker-store a chat_id PickKind.signal current
            (store_kind chat_id PickKind.signal current b))
          (
            OnRows-modify IsChat chat_id (with_picks (some current) none) b.store.chats
                (rw e (
                  current,
                  ys,
                  refl,
                  ey,
                  picks,
                  hy,
                  signal-IsStage row.state (length xs) (length current) (length ys) h stage,
                  d,
                ))
                v.0,
            v.1,
          )
    keep-IsSignup PickKind.execute (some current) h picks =
        let (xs, ys, ex, ey, hx, hy, stage, d) = c in
        rw
          (refresh_picker-store a chat_id PickKind.execute current
            (store_kind chat_id PickKind.execute current b))
          (
            OnRows-modify IsChat chat_id (with_picks none (some current)) b.store.chats
                (rw e (
                  xs,
                  current,
                  ex,
                  refl,
                  hx,
                  picks,
                  execute-IsStage row.state (length xs) (length ys) (length current) h stage,
                  d,
                ))
                v.0,
            v.1,
          )

    column-IsPicks :
        (kind : PickKind) → IsPicks (picks_required kind) (picks_for kind (read_row row))
    column-IsPicks PickKind.signal =
        let (xs, ys, ex, ey, hx, hy, stage, d) = c in rw (read_back row.picks_signal xs 3 ex hx) hx
    column-IsPicks PickKind.execute =
        let (xs, ys, ex, ey, hx, hy, stage, d) = c in rw (read_back row.picks_execute ys 2 ey hy) hy

  pub toggle-IsSignup :
      (kind : PickKind) (strategy : String)
      → IsPlain strategy
      → IsSignup (handle_pick_toggle a chat_id kind strategy b).store
  unfolding handle_pick_toggle get_state
  toggle-IsSignup kind strategy plain = elim (Option-cases (lookup chat_id b.store.chats)) [
    | inl e ↦ rw e v
    | inr (row, e) ↦ rw e (elim (Bool-cases (is_picking kind row.state)) [
      | inl picking ↦ rw picking (
          let c : IsChat row = subst (OnRow IsChat) e (v.0 chat_id) in
          keep-IsSignup row e c kind _ picking
            (toggled-IsPicks (picks_required kind) strategy _ plain (column-IsPicks row e c kind)))
      | inr other ↦ rw other v
    ])
  ]
