-- ===== src/Signup/Bot.antt =====
-- `TelegramSignupBot` of src/api/telegram_signup.py. Telegram's answers come with the update that is
-- handled: the ID of the picker's message, and whether an edit succeeds. Messages are constructors;
-- the keyboards other than the picker's are the same for every such message.
pub mod Email
pub mod Updates
pub mod Stage
pub mod Picking
pub mod Filed
use forex_ea.Prelude.{
  ℕ, zero, suc, ◌+◌, Bool, true, false, not, ◌&&◌, ◌||◌, Option, none, some, List, [], ◌∷◌, ◌++◌,
  String, map, foldl, select, length, ltb, leb, nat_beq, if◌then◌else◌,
}
use Prim.Native.Char.{code}
use forex_ea.Result.{Result, ok, err}
use forex_ea.Table.{Table, lookup, upsert, delete, ◌==◌, string_eq, nat_eq}
use forex_ea.Users.{PickKind, is_in}
use forex_ea.Signup.{
  Phase, ChatState, SignupStore, Profile, Details, valid_durations, get_state, set_state_picks,
  upsert_state, create_request, set_update_offset,
}
use forex_ea.Signup.Csv.{strip, concat, is_empty_text}
use forex_ea.Signup.Bot.Email.{is_email}

-- The names of `STRATEGY_LABELS`.
abbrev pub strategy_labels : List String
strategy_labels =
    "ma_crossover" ∷ "rsi_mean_reversion" ∷ "donchian_breakout" ∷ "macd_cross" ∷ "bollinger_bounce"
    ∷ "bollinger_squeeze" ∷ "stochastic_reversal" ∷ "triple_ma_alignment" ∷ "inside_bar_breakout"
    ∷ "engulfing_pattern" ∷ "ema_pullback" ∷ "adx_breakout" ∷ []

pub data Button : Type 0 where
  choice : Bool → String → Button
  continue_button : Button

pub data Message : Type 0 where
  welcome phone_saved need_contact confirmed invalid_email unknown_command : Message
  not_available not_saved : Message
  phone_prompt : String → Message
  -- The kind, how many are selected, and the keyboard.
  picker : PickKind → ℕ → List (List Button) → Message

pub data Outgoing : Type 0 where
  sent : ℕ → Message → Outgoing
  edited : ℕ → ℕ → Message → Outgoing

pub record SignupBot : Type 0 where
  pub store : SignupStore
  pub phone_cache : Table ℕ String
  pub picker_msg : Table ℕ ℕ
  pub outbox : List Outgoing

-- What the bot learns while it handles an update.
pub record Answers : Type 0 where
  pub now : ℕ
  pub sent_id : Option ℕ
  pub edit_ok : Bool
  -- `user_copyable_names()`, where there is a store that answers
  pub copyable : Option (List String)

abbrev pub picks_required : PickKind → ℕ
picks_required PickKind.signal = 3
picks_required PickKind.execute = 2

abbrev two_per_row : List Button → List (List Button)
two_per_row [] = []
two_per_row (a ∷ []) = (a ∷ []) ∷ []
two_per_row (a ∷ b ∷ buttons) = (a ∷ b ∷ []) ∷ two_per_row buttons

unfoldable pub build_picker_keyboard : List String → List String → Bool → List (List Button)
build_picker_keyboard strategies selected show_continue =
    two_per_row (map (λ (s : String). choice (is_in s selected) s) strategies)
    ++ (if show_continue then (continue_button ∷ []) ∷ [] else [])

unfoldable pub available_strategies : Option (List String) → List String
available_strategies none = strategy_labels
available_strategies (some available) = select (λ s. is_in s available) strategy_labels

abbrev pub say : ℕ → Message → SignupBot → SignupBot
say chat_id message b = record b { outbox = b.outbox ++ sent chat_id message ∷ [] }

abbrev picker_message : Answers → PickKind → List String → Message
picker_message a kind selected =
    let keyboard =
      build_picker_keyboard (available_strategies a.copyable) selected
        (leb (picks_required kind) (length selected)) in
    picker kind (length selected) keyboard

abbrev pub note_picker : ℕ → Option ℕ → SignupBot → SignupBot
note_picker chat_id none b = b
note_picker chat_id (some msg_id) b = record b { picker_msg = upsert chat_id msg_id b.picker_msg }

unfoldable pub send_picker : Answers → ℕ → PickKind → List String → SignupBot → SignupBot
unfolding build_picker_keyboard available_strategies
send_picker a chat_id kind selected b =
    note_picker chat_id a.sent_id (say chat_id (picker_message a kind selected) b)

abbrev pub edit_picker : Answers → ℕ → PickKind → List String → Option ℕ → SignupBot → SignupBot
edit_picker a chat_id kind selected none b = send_picker a chat_id kind selected b
edit_picker a chat_id kind selected (some msg_id) b =
    let b' = record b {
      outbox = b.outbox ++ edited chat_id msg_id (picker_message a kind selected) ∷ [];
    } in
    if a.edit_ok then b' else send_picker a chat_id kind selected b'

unfoldable pub refresh_picker : Answers → ℕ → PickKind → List String → SignupBot → SignupBot
unfolding send_picker
refresh_picker a chat_id kind selected b =
    edit_picker a chat_id kind selected (lookup chat_id b.picker_msg) b

abbrev pub phase_of : Option ChatState → Phase
phase_of none = Phase.idle
phase_of (some chat) = chat.state

abbrev pub duration_of : Option ChatState → Option String
duration_of none = none
duration_of (some chat) = chat.duration

abbrev pub current_state : ℕ → SignupBot → Phase
current_state chat_id b = phase_of (get_state chat_id b.store)

abbrev pub current_duration : ℕ → SignupBot → Option String
current_duration chat_id b = duration_of (get_state chat_id b.store)

abbrev pub move_to : ℕ → Phase → Option String → Profile → SignupBot → SignupBot
move_to chat_id phase duration p b = record b {
  store = upsert_state chat_id phase duration p b.store;
}

abbrev pub pick_store : ℕ → Option (List String) → Option (List String) → SignupBot → SignupBot
pick_store chat_id signal execute b = record b {
  store = set_state_picks chat_id signal execute b.store;
}

unfoldable pub send_welcome : ℕ → Profile → SignupBot → SignupBot
send_welcome chat_id p b = say chat_id welcome (move_to chat_id Phase.idle none p b)

abbrev lstrip_zeros : String → String
lstrip_zeros String.[] = ""
lstrip_zeros (String.◌∷◌ c s) = if nat_beq (code c) b'0' then lstrip_zeros s else String.◌∷◌ c s

abbrev has_plus : String → Bool
has_plus String.[] = false
has_plus (String.◌∷◌ c s) = nat_beq (code c) b'+'

unfoldable pub clean_phone : String → String
clean_phone phone =
    let clean = strip phone in
    if not (is_empty_text clean) && not (has_plus clean)
    then concat "+" (lstrip_zeros clean)
    else clean

abbrev pub begin_picks : Answers → ℕ → String → Profile → Option String → SignupBot → SignupBot
begin_picks a chat_id phone p none b = send_welcome chat_id p b
begin_picks a chat_id phone p (some duration) b =
    let cached = record b { phone_cache = upsert chat_id (clean_phone phone) b.phone_cache } in
    send_picker a chat_id PickKind.signal [] (
      say chat_id phone_saved (
        pick_store chat_id (some []) (some [])
          (move_to chat_id Phase.picking_signals (some duration) p cached)))

unfoldable pub handle_phone : Answers → ℕ → String → Profile → SignupBot → SignupBot
handle_phone a chat_id phone p b = begin_picks a chat_id phone p (current_duration chat_id b) b

-- `current.remove(strategy)`
abbrev pub remove : String → List String → List String
remove x [] = []
remove x (y ∷ ys) = if y == x then ys else y ∷ remove x ys

-- The picks after a tap, or none where the tap is ignored.
abbrev pub toggled : ℕ → String → List String → Option (List String)
toggled required strategy current =
    if is_in strategy current
    then some (remove strategy current)
    else if ltb (length current) required
    then some (current ++ strategy ∷ [])
    else none

abbrev pub is_picking : PickKind → Phase → Bool
is_picking PickKind.signal Phase.picking_signals = true
is_picking PickKind.execute Phase.picking_execute = true
is_picking _ _ = false

abbrev pub picks_for : PickKind → ChatState → List String
picks_for PickKind.signal chat = chat.picks_signal
picks_for PickKind.execute chat = chat.picks_execute

abbrev pub store_kind : ℕ → PickKind → List String → SignupBot → SignupBot
store_kind chat_id PickKind.signal current b = pick_store chat_id (some current) none b
store_kind chat_id PickKind.execute current b = pick_store chat_id none (some current) b

abbrev pub keep_picks : Answers → ℕ → PickKind → Option (List String) → SignupBot → SignupBot
keep_picks a chat_id kind none b = b
keep_picks a chat_id kind (some current) b =
    refresh_picker a chat_id kind current (store_kind chat_id kind current b)

abbrev toggle_in : Answers → ℕ → PickKind → String → Option ChatState → SignupBot → SignupBot
toggle_in a chat_id kind strategy none b = b
toggle_in a chat_id kind strategy (some chat) b =
    if is_picking kind chat.state
    then keep_picks a chat_id kind (toggled (picks_required kind) strategy (picks_for kind chat)) b
    else b

unfoldable pub handle_pick_toggle : Answers → ℕ → PickKind → String → SignupBot → SignupBot
handle_pick_toggle a chat_id kind strategy b =
    toggle_in a chat_id kind strategy (get_state chat_id b.store) b

abbrev pub confirm : ℕ → Profile → Result SignupStore → SignupBot → SignupBot
confirm chat_id p (err raised) b = say chat_id not_saved b
confirm chat_id p (ok store) b =
    let idle = move_to chat_id Phase.idle none p (record b { store = store }) in
    let cleared = pick_store chat_id (some []) (some []) idle in
    say chat_id confirmed (record cleared { picker_msg = delete chat_id cleared.picker_msg })

abbrev pub picked_details : ℕ → Profile → ChatState → Option String → Details
picked_details chat_id p chat phone = record {
  chat_id = chat_id;
  profile = p;
  email = "";
  phone_number = phone;
  picks_signal = chat.picks_signal;
  picks_execute = chat.picks_execute;
}

abbrev pub file_request :
    Answers → ℕ → Profile → ChatState → Option String → Option String → SignupBot → SignupBot
file_request a chat_id p chat phone none b = send_welcome chat_id p b
file_request a chat_id p chat phone (some duration) b =
    confirm chat_id p (create_request a.now duration (picked_details chat_id p chat phone) b.store)
      b

abbrev pub finalize_chat : Answers → ℕ → Profile → Option ChatState → SignupBot → SignupBot
finalize_chat a chat_id p none b = b
finalize_chat a chat_id p (some chat) b =
    file_request a chat_id p chat (lookup chat_id b.phone_cache) chat.duration
      (record b { phone_cache = delete chat_id b.phone_cache })

unfoldable pub finalize_signup : Answers → ℕ → Profile → SignupBot → SignupBot
finalize_signup a chat_id p b = finalize_chat a chat_id p (get_state chat_id b.store) b

abbrev pub next_round : Answers → ℕ → Profile → ChatState → SignupBot → SignupBot
next_round a chat_id p chat b =
    let moved = move_to chat_id Phase.picking_execute chat.duration p b in
    send_picker a chat_id PickKind.execute chat.picks_execute
      (record moved { picker_msg = delete chat_id moved.picker_msg })

abbrev pub done_in : Answers → ℕ → PickKind → Profile → Option ChatState → SignupBot → SignupBot
done_in a chat_id kind p none b = b
done_in a chat_id PickKind.signal p (some chat) b =
    if nat_beq (length chat.picks_signal) (picks_required PickKind.signal)
    then next_round a chat_id p chat b
    else b
done_in a chat_id PickKind.execute p (some chat) b =
    if nat_beq (length chat.picks_execute) (picks_required PickKind.execute)
    then finalize_signup a chat_id p b
    else b

unfoldable pub handle_pick_done : Answers → ℕ → PickKind → Profile → SignupBot → SignupBot
handle_pick_done a chat_id kind p b = done_in a chat_id kind p (get_state chat_id b.store) b

abbrev confirm_email : ℕ → Profile → Result SignupStore → SignupBot → SignupBot
confirm_email chat_id p (err raised) b = say chat_id not_saved b
confirm_email chat_id p (ok store) b =
    say chat_id confirmed (move_to chat_id Phase.idle none p (record b { store = store }))

abbrev file_email : Answers → ℕ → String → Profile → Option String → SignupBot → SignupBot
file_email a chat_id email p none b = send_welcome chat_id p b
file_email a chat_id email p (some duration) b =
    let details : Details = record {
      chat_id = chat_id;
      profile = p;
      email = email;
      phone_number = none;
      picks_signal = [];
      picks_execute = [];
    } in
    confirm_email chat_id p (create_request a.now duration details b.store) b

unfoldable pub handle_email : Answers → ℕ → String → Profile → SignupBot → SignupBot
handle_email a chat_id text p b =
    if is_email (strip text)
    then file_email a chat_id (strip text) p (current_duration chat_id b) b
    else say chat_id invalid_email b
