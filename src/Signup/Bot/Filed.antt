-- ===== src/Signup/Bot/Filed.antt =====
-- Every request that the sign-up bot files is complete: src/api/telegram_signup.py over
-- src/api/subscription_requests.py.
use forex_ea.Prelude.{
  ℕ, zero, suc, ◌≡◌, ◌≢◌, refl, sym, ap, ◌∙◌, subst, true, Option, none, some, List, [], ◌∷◌,
  String, length, nat_beq, nat_beq_iff, arith, All, All-append, Bool-cases, Option-cases, inl, inr,
}
use forex_ea.Table.{lookup, delete, ◌==◌, string_eq, nat_eq, OnRow, OnRows-upsert}
use forex_ea.Users.{PickKind, is_in}
use forex_ea.Signup.{
  Phase, ChatRow, SubscriptionRequest, Profile, Details, valid_durations, get_state, upsert_state,
  create_request, set_update_offset, chat_row, read_row, read_chat, new_request,
}
use forex_ea.Signup.Csv.{split_csv, split_csv-join, IsPlain, strip}
use forex_ea.Signup.Picks.{IsPicks}
use forex_ea.Signup.Bot.{
  SignupBot, Answers, send_welcome, begin_picks, handle_phone, file_request, finalize_signup,
  next_round, handle_pick_done, current_duration, current_state, phase_of, duration_of,
  picked_details,
}
use forex_ea.Signup.Bot.Stage.{
  IsStage, IsDuration, IsChat, IsSignup, RequestIsComplete, read_back, move_loose, clear_picks,
  empty_chat,
}
use forex_ea.Signup.Bot.Picking.{toggle-IsSignup, send_picker-store}
use forex_ea.Signup.Bot.Updates.{
  Tap, tap_of, on_tap, in_phase, refreshed, handle_message, Update, handle_update, Received,
  process_update, run, awaited_phone, shared_phone, acknowledged,
}

-- The taps on the picker name strategies that a column keeps.
abbrev pub IsPlainTap : Tap → Type 0
IsPlainTap (Tap.duration_tap code) = Unit
IsPlainTap (Tap.pick_tap kind strategy) = IsPlain strategy
IsPlainTap (Tap.done_tap kind) = Unit
IsPlainTap Tap.ignored = Unit

abbrev pub IsPlainUpdate : Update → Type 0
IsPlainUpdate (Update.callback_query chat_id p callback_data) = IsPlainTap (tap_of callback_data)
IsPlainUpdate (Update.message chat_id p text contact) = Unit
IsPlainUpdate Update.other_update = Unit

abbrev pub new_bot : SignupBot
new_bot = record {
  store = record { chats = []; requests = []; last_id = 0; update_offset = none };
  phone_cache = [];
  picker_msg = [];
  outbox = [];
}

welcome-IsSignup :
    (chat_id : ℕ) (p : Profile) (b : SignupBot)
    → IsSignup b.store
    → IsSignup (send_welcome chat_id p b).store
unfolding send_welcome
welcome-IsSignup chat_id p b v = move_loose chat_id p b.store v Phase.idle none (λ n m h. h) tt

-- The request that holds the picks read from the columns.
new_request-IsComplete :
    (now : ℕ) (code : String) (d : Details) (xs ys : List String)
    → d.picks_signal ≡ xs
    → d.picks_execute ≡ ys
    → IsPicks 3 xs
    → IsPicks 2 ys
    → length xs ≡ 3
    → length ys ≡ 2
    → is_in code valid_durations ≡ true
    → RequestIsComplete (new_request now code d)
new_request-IsComplete now code d xs ys ex ey hx hy n m offered =
    rw (ex, ey, split_csv-join xs hx.0, split_csv-join ys hy.0) (n, hx.1, m, hy.1, offered)

three_signals : (phase : Phase) (n m : ℕ) → m ≡ 2 → IsStage phase n m → n ≡ 3
three_signals Phase.idle n m e (inl h) = absurd (omega arith)
three_signals Phase.idle n m e (inr h) = h
three_signals Phase.awaiting_email n m e h = elim h [ ]
three_signals Phase.awaiting_phone n m e (inl h) = absurd (omega arith)
three_signals Phase.awaiting_phone n m e (inr h) = h
three_signals Phase.picking_signals n m e h = absurd (omega arith)
three_signals Phase.picking_execute n m e h = h

refreshed_row :
    (p : Profile) (o : Option ChatRow)
    → OnRow IsChat o
    → IsChat (chat_row (phase_of (read_chat o)) (duration_of (read_chat o)) p o)
refreshed_row p none c = empty_chat Phase.idle none (inl refl) tt
refreshed_row p (some row) c = c

email_stage : (o : Option ChatRow) → OnRow IsChat o → phase_of (read_chat o) ≢ Phase.awaiting_email
email_stage none c h = cc h
email_stage (some row) c h =
    let (xs, ys, ex, ey, hx, hy, stage, d) = c in
    subst (λ phase. IsStage phase (length xs) (length ys)) h stage

module _ (a : Answers) (chat_id : ℕ) (p : Profile) where
  module _ (row : ChatRow) (c : IsChat row) where
    file-IsSignup :
        (phone duration : Option String) (b : SignupBot)
        → IsSignup b.store
        → IsDuration duration
        → length (split_csv row.picks_execute) ≡ 2
        → IsSignup (file_request a chat_id p (read_row row) phone duration b).store
    unfolding create_request
    file-IsSignup phone none b v d two = welcome-IsSignup chat_id p b v
    file-IsSignup phone (some code) b v d two =
        let (xs, ys, ex, ey, hx, hy, stage, known) = c in
        let ex' : split_csv row.picks_signal ≡ xs = read_back row.picks_signal xs 3 ex hx in
        let ey' : split_csv row.picks_execute ≡ ys = read_back row.picks_execute ys 2 ey hy in
        let m : length ys ≡ 2 = ap length (sym ey') ∙ two in
        rw d (
          clear_picks chat_id p _
            (
              v.0,
              All-append _ b.store.requests _ v.1 (
                new_request-IsComplete a.now code (picked_details chat_id p (read_row row) phone) xs
                    ys ex' ey' hx hy (three_signals row.state (length xs) (length ys) m stage) m d,
                tt,
              ),
            )
            Phase.idle none (inl refl) tt)

  finalize-IsSignup :
      (b : SignupBot)
      → IsSignup b.store
      → (row : ChatRow) → lookup chat_id b.store.chats ≡ some row
      → length (split_csv row.picks_execute) ≡ 2
      → IsSignup (finalize_signup a chat_id p b).store
  unfolding finalize_signup get_state
  finalize-IsSignup b v row e two =
      let c : IsChat row = subst (OnRow IsChat) e (v.0 chat_id) in
      let (xs, ys, ex, ey, hx, hy, stage, d) = c in
      rw e (
        file-IsSignup row c (lookup chat_id b.phone_cache) row.duration
          (record b { phone_cache = delete chat_id b.phone_cache }) v d two)

  next_round-IsSignup :
      (b : SignupBot)
      → IsSignup b.store
      → (row : ChatRow) → lookup chat_id b.store.chats ≡ some row
      → length (split_csv row.picks_signal) ≡ 3
      → IsSignup (next_round a chat_id p (read_row row) b).store
  unfolding upsert_state
  next_round-IsSignup b v row e three =
      let c : IsChat row = subst (OnRow IsChat) e (v.0 chat_id) in
      let (xs, ys, ex, ey, hx, hy, stage, d) = c in
      rw (send_picker-store a chat_id PickKind.execute (split_csv row.picks_execute) _) (
        OnRows-upsert IsChat chat_id _ b.store.chats
            (rw e (
              xs,
              ys,
              ex,
              ey,
              hx,
              hy,
              ap length (sym (read_back row.picks_signal xs 3 ex hx)) ∙ three,
              d,
            ))
            v.0,
        v.1,
      )

  done-IsSignup :
      (kind : PickKind) (b : SignupBot)
      → IsSignup b.store
      → IsSignup (handle_pick_done a chat_id kind p b).store
  unfolding handle_pick_done get_state
  done-IsSignup PickKind.signal b v = elim (Option-cases (lookup chat_id b.store.chats)) [
    | inl e ↦ rw e v
    | inr (row, e) ↦ rw e (elim (Bool-cases (nat_beq (length (split_csv row.picks_signal)) 3)) [
      | inl three ↦ rw three (next_round-IsSignup b v row e ((nat_beq_iff _ 3).0 three))
      | inr few ↦ rw few v
    ])
  ]
  done-IsSignup PickKind.execute b v = elim (Option-cases (lookup chat_id b.store.chats)) [
    | inl e ↦ rw e v
    | inr (row, e) ↦ rw e (elim (Bool-cases (nat_beq (length (split_csv row.picks_execute)) 2)) [
      | inl two ↦ rw two (finalize-IsSignup b v row e ((nat_beq_iff _ 2).0 two))
      | inr few ↦ rw few v
    ])
  ]

  phone-IsSignup :
      (phone : String) (duration : Option String) (b : SignupBot)
      → IsSignup b.store
      → IsDuration duration
      → IsSignup (begin_picks a chat_id phone p duration b).store
  phone-IsSignup phone none b v d = welcome-IsSignup chat_id p b v
  phone-IsSignup phone (some code) b v d =
      rw (send_picker-store a chat_id PickKind.signal [] _)
        (clear_picks chat_id p b.store v Phase.picking_signals (some code) refl d)

  current_duration-IsDuration :
      (b : SignupBot) → IsSignup b.store → IsDuration (current_duration chat_id b)
  unfolding get_state
  current_duration-IsDuration b v = elim (Option-cases (lookup chat_id b.store.chats)) [
    | inl e ↦ rw e tt
    | inr (row, e) ↦
        let c : IsChat row = subst (OnRow IsChat) e (v.0 chat_id) in
        let (xs, ys, ex, ey, hx, hy, stage, d) = c in rw e d
  ]

  -- A message that only refreshes the profile leaves the conversation in its phase.
  refreshed-IsSignup : (b : SignupBot) → IsSignup b.store → IsSignup (refreshed chat_id p b).store
  unfolding upsert_state get_state
  refreshed-IsSignup b v = (
    OnRows-upsert IsChat chat_id _ b.store.chats
        (refreshed_row p (lookup chat_id b.store.chats) (v.0 chat_id)) v.0,
    v.1,
  )

  phase-ne-email :
      (b : SignupBot) → IsSignup b.store → current_state chat_id b ≢ Phase.awaiting_email
  unfolding get_state
  phase-ne-email b v h = email_stage (lookup chat_id b.store.chats) (v.0 chat_id) h

  awaited-IsSignup :
      (phone : Option String) (b : SignupBot)
      → IsSignup b.store
      → IsSignup (awaited_phone a chat_id p phone b).store
  unfolding handle_phone
  awaited-IsSignup none b v = v
  awaited-IsSignup (some phone) b v =
      phone-IsSignup phone (current_duration chat_id b) b v (current_duration-IsDuration b v)

  in_phase-IsSignup :
      (text : String) (contact : Option String) (phase : Phase) (b : SignupBot)
      → IsSignup b.store
      → phase ≢ Phase.awaiting_email
      → IsSignup (in_phase a chat_id p text contact phase b).store
  in_phase-IsSignup text contact Phase.idle b v h = v
  in_phase-IsSignup text contact Phase.awaiting_email b v h = absurd (h refl)
  in_phase-IsSignup text contact Phase.awaiting_phone b v h =
      awaited-IsSignup (shared_phone contact) b v
  in_phase-IsSignup text contact Phase.picking_signals b v h = v
  in_phase-IsSignup text contact Phase.picking_execute b v h = v

  tap-IsSignup :
      (tap : Tap) (b : SignupBot)
      → IsPlainTap tap
      → IsSignup b.store
      → IsSignup (on_tap a chat_id p tap b).store
  tap-IsSignup (Tap.duration_tap code) b plain v = elim (Bool-cases (is_in code valid_durations)) [
    | inl offered ↦
        rw offered
          (move_loose chat_id p b.store v Phase.awaiting_phone (some code) (λ n m h. h) offered)
    | inr other ↦ rw other v
  ]
  tap-IsSignup (Tap.pick_tap kind strategy) b plain v =
      toggle-IsSignup a chat_id b v kind strategy plain
  tap-IsSignup (Tap.done_tap kind) b plain v = done-IsSignup kind b v
  tap-IsSignup Tap.ignored b plain v = v

message-IsSignup :
    (a : Answers) (chat_id : ℕ) (p : Profile) (text : String) (contact : Option String)
    (b : SignupBot)
    → IsSignup b.store
    → IsSignup (handle_message a chat_id p text contact b).store
unfolding handle_message
message-IsSignup a zero p text contact b v = v
message-IsSignup a (suc n) p text contact b v =
    let b' : SignupBot = refreshed (suc n) p b in
    let v' : IsSignup b'.store = refreshed-IsSignup a (suc n) p b v in
    elim (Bool-cases (strip text == "/start")) [
      | inl start ↦ rw start (welcome-IsSignup (suc n) p b' v')
      | inr other ↦ rw other (
          in_phase-IsSignup a (suc n) p (strip text) contact (current_state (suc n) b') b' v'
            (phase-ne-email a (suc n) p b' v'))
    ]

update-IsSignup :
    (a : Answers) (u : Update) (b : SignupBot)
    → IsPlainUpdate u
    → IsSignup b.store
    → IsSignup (handle_update a u b).store
unfolding handle_update
update-IsSignup a (Update.callback_query zero p callback_data) b plain v = v
update-IsSignup a (Update.callback_query (suc n) p callback_data) b plain v =
    tap-IsSignup a (suc n) p (tap_of callback_data) b plain v
update-IsSignup a (Update.message chat_id p text contact) b plain v =
    message-IsSignup a chat_id p text contact b v
update-IsSignup a Update.other_update b plain v = v

acknowledged-IsSignup :
    (update_id : ℕ) (b : SignupBot) → IsSignup b.store → IsSignup (acknowledged update_id b).store
unfolding set_update_offset
acknowledged-IsSignup zero b v = v
acknowledged-IsSignup (suc n) b v = v

process-IsSignup :
    (r : Received) (b : SignupBot)
    → IsPlainUpdate r.update
    → IsSignup b.store
    → IsSignup (process_update b r).store
unfolding process_update
process-IsSignup r b plain v =
    acknowledged-IsSignup r.update_id (handle_update r.answers r.update b)
      (update-IsSignup r.answers r.update b plain v)

run-IsSignup :
    (received : List Received) (b : SignupBot)
    → All (λ (r : Received). IsPlainUpdate r.update) received
    → IsSignup b.store
    → IsSignup (run b received).store
unfolding run
run-IsSignup [] b plain v = v
run-IsSignup (r ∷ rs) b plain v =
    run-IsSignup rs (process_update b r) plain.1 (process-IsSignup r b plain.0 v)

-- Whatever updates a bot handles from its start, with names in the picker's taps that a column keeps
-- (not empty, no comma, no white space at the ends), every request that it has filed holds exactly
-- three distinct strategies for signals, exactly two distinct ones for execution, and a duration that
-- is offered.
pub run-IsComplete :
    (received : List Received)
    → All (λ (r : Received). IsPlainUpdate r.update) received
    → All
        (λ (r : ℕ × SubscriptionRequest). RequestIsComplete r.1)
        (run new_bot received).store.requests
run-IsComplete received plain = (run-IsSignup received new_bot plain (λ k. tt, tt)).1
