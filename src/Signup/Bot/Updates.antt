-- ===== src/Signup/Bot/Updates.antt =====
-- How `TelegramSignupBot` of src/api/telegram_signup.py routes an update, and a round of its polling
-- loop. A handler raises nothing, since the store's only exception is caught where it arises.
use forex_ea.Prelude.{ℕ, zero, suc, Option, none, some, List, String, foldl, nat_beq, if◌then◌else◌}
use Prim.Native.Char.{code}
use forex_ea.Table.{◌==◌, string_eq, nat_eq}
use forex_ea.Users.{PickKind, is_in}
use forex_ea.Signup.{Phase, Profile, valid_durations, set_update_offset}
use forex_ea.Signup.Csv.{strip, is_empty_text}
use forex_ea.Signup.Bot.{
  SignupBot, Answers, Message, say, move_to, current_state, current_duration, send_welcome,
  handle_phone, handle_email, handle_pick_toggle, handle_pick_done,
}

-- The rest of a text after a prefix.
abbrev pub after : String → String → Option String
after String.[] s = some s
after (String.◌∷◌ c p) String.[] = none
after (String.◌∷◌ c p) (String.◌∷◌ d s) = if nat_beq (code c) (code d) then after p s else none

-- The texts on both sides of the first colon.
abbrev pub cut_colon : String → Option (String × String)
cut_colon String.[] = none
cut_colon (String.◌∷◌ c s) =
    if nat_beq (code c) b':'
    then some ("", s)
    else elim (cut_colon s) [ none ↦ none | some (left, right) ↦ some (String.◌∷◌ c left, right) ]

abbrev pub kind_of : String → Option PickKind
kind_of text =
    if text == "signal"
    then some PickKind.signal
    else if text == "execute"
    then some PickKind.execute
    else none

-- What the data of a button asks for.
pub data Tap : Type 0 where
  duration_tap : String → Tap
  pick_tap : PickKind → String → Tap
  done_tap : PickKind → Tap
  ignored : Tap

abbrev pick_of : Option PickKind → String → Tap
pick_of none strategy = ignored
pick_of (some kind) strategy = pick_tap kind strategy

abbrev pick_parts : Option (String × String) → Tap
pick_parts none = ignored
pick_parts (some (kind, strategy)) = pick_of (kind_of kind) strategy

abbrev done_of : Option PickKind → Tap
done_of none = ignored
done_of (some kind) = done_tap kind

abbrev tap_done : Option String → Tap
tap_done none = ignored
tap_done (some kind) = done_of (kind_of kind)

abbrev tap_pick : Option String → Option String → Tap
tap_pick none finished = tap_done finished
tap_pick (some rest) finished = pick_parts (cut_colon rest)

abbrev tap_duration : Option String → Option String → Option String → Tap
tap_duration none picked finished = tap_pick picked finished
tap_duration (some code) picked finished = duration_tap code

unfoldable pub tap_of : String → Tap
tap_of callback_data =
    tap_duration (after "dur:" callback_data) (after "pick:" callback_data)
      (after "pickdone:" callback_data)

abbrev pub on_tap : Answers → ℕ → Profile → Tap → SignupBot → SignupBot
on_tap a chat_id p (duration_tap code) b =
    if is_in code valid_durations
    then say chat_id (Message.phone_prompt code)
        (move_to chat_id Phase.awaiting_phone (some code) p b)
    else say chat_id Message.not_available b
on_tap a chat_id p (pick_tap kind strategy) b = handle_pick_toggle a chat_id kind strategy b
on_tap a chat_id p (done_tap kind) b = handle_pick_done a chat_id kind p b
on_tap a chat_id p ignored b = b

-- A chat ID of 0 stands for a missing one.
unfoldable pub handle_callback : Answers → ℕ → Profile → String → SignupBot → SignupBot
unfolding tap_of
handle_callback a zero p callback_data b = b
handle_callback a (suc n) p callback_data b = on_tap a (suc n) p (tap_of callback_data) b

-- The stripped phone number of a contact, where it is not empty.
abbrev pub shared_phone : Option String → Option String
shared_phone none = none
shared_phone (some phone) = if is_empty_text (strip phone) then none else some (strip phone)

abbrev pub awaited_phone : Answers → ℕ → Profile → Option String → SignupBot → SignupBot
awaited_phone a chat_id p none b = say chat_id Message.need_contact b
awaited_phone a chat_id p (some phone) b = handle_phone a chat_id phone p b

abbrev pub in_phase : Answers → ℕ → Profile → String → Option String → Phase → SignupBot → SignupBot
in_phase a chat_id p text contact Phase.awaiting_phone b =
    awaited_phone a chat_id p (shared_phone contact) b
in_phase a chat_id p text contact Phase.awaiting_email b = handle_email a chat_id text p b
in_phase a chat_id p text contact Phase.idle b = say chat_id Message.unknown_command b
in_phase a chat_id p text contact Phase.picking_signals b = say chat_id Message.unknown_command b
in_phase a chat_id p text contact Phase.picking_execute b = say chat_id Message.unknown_command b

-- The profile is refreshed before the message is looked at.
abbrev pub refreshed : ℕ → Profile → SignupBot → SignupBot
refreshed chat_id p b = move_to chat_id (current_state chat_id b) (current_duration chat_id b) p b

unfoldable pub handle_message :
    Answers → ℕ → Profile → String → Option String → SignupBot → SignupBot
handle_message a zero p text contact b = b
handle_message a (suc n) p text contact b =
    let b' = refreshed (suc n) p b in
    if strip text == "/start"
    then send_welcome (suc n) p b'
    else in_phase a (suc n) p (strip text) contact (current_state (suc n) b') b'

-- The contact is the phone number that a message with a contact carries.
pub data Update : Type 0 where
  callback_query : ℕ → Profile → String → Update
  message : ℕ → Profile → String → Option String → Update
  other_update : Update

unfoldable pub handle_update : Answers → Update → SignupBot → SignupBot
unfolding handle_callback handle_message
handle_update a (callback_query chat_id p callback_data) b =
    handle_callback a chat_id p callback_data b
handle_update a (message chat_id p text contact) b = handle_message a chat_id p text contact b
handle_update a other_update b = b

-- An update with its ID and the answers that the bot gets while it handles it.
pub record Received : Type 0 where
  pub update_id : ℕ
  pub update : Update
  pub answers : Answers

abbrev pub acknowledged : ℕ → SignupBot → SignupBot
acknowledged zero b = b
acknowledged (suc n) b = record b { store = set_update_offset (suc n) b.store }

unfoldable pub process_update : SignupBot → Received → SignupBot
unfolding handle_update
process_update b r = acknowledged r.update_id (handle_update r.answers r.update b)

-- The updates that the polls have fetched, in their order.
unfoldable pub run : SignupBot → List Received → SignupBot
unfolding process_update
run b received = foldl process_update b received
