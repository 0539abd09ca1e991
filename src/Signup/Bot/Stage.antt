-- ===== src/Signup/Bot/Stage.antt =====
-- What a sign-up over Telegram files: src/api/telegram_signup.py over src/api/subscription_requests.py.
use forex_ea.Prelude.{
  ℕ, ◌≡◌, ◌⊎◌, refl, ap, ◌∙◌, true, Option, none, some, List, [], String, length, arith, All, inl,
  inr,
}
use forex_ea.Table.{lookup, string_eq, nat_eq, OnRow, OnRows, OnRows-upsert, OnRows-modify-upsert}
use forex_ea.Users.{PickKind, is_in}
use forex_ea.Signup.{
  Phase, ChatRow, SignupStore, SubscriptionRequest, Profile, valid_durations, set_state_picks,
  upsert_state, chat_row, with_picks,
}
use forex_ea.Signup.Csv.{join_csv, split_csv, split_csv-join}
use forex_ea.Signup.Picks.{distinct, IsPicks}
use forex_ea.Signup.Bot.{is_picking}

-- How many picks of each kind a conversation may hold in a phase.
abbrev pub IsStage : Phase → ℕ → ℕ → Type 0
IsStage Phase.idle n m = (m ≡ 0) ⊎ (n ≡ 3)
IsStage Phase.awaiting_email n m = ⊥
IsStage Phase.awaiting_phone n m = (m ≡ 0) ⊎ (n ≡ 3)
IsStage Phase.picking_signals n m = m ≡ 0
IsStage Phase.picking_execute n m = n ≡ 3

abbrev pub IsDuration : Option String → Type 0
IsDuration none = Unit
IsDuration (some code) = is_in code valid_durations ≡ true

-- The columns of a conversation hold names that they keep.
abbrev pub IsChatOf : Phase → Option String → String → String → Type 0
IsChatOf phase duration signals executes =
    (xs : List String) × (ys : List String) × (signals ≡ join_csv xs)
    × (executes ≡ join_csv ys)
    × IsPicks 3 xs
    × IsPicks 2 ys
    × IsStage phase (length xs) (length ys)
    × IsDuration duration

abbrev pub IsChat : ChatRow → Type 0
IsChat row = IsChatOf row.state row.duration row.picks_signal row.picks_execute

-- What is read of a request: three distinct strategies for signals, two for execution, and a duration
-- that is offered.
abbrev pub RequestIsComplete : SubscriptionRequest → Type 0
RequestIsComplete r =
    (length (split_csv r.picks_signal) ≡ 3)
    × (distinct (split_csv r.picks_signal) ≡ true)
    × (length (split_csv r.picks_execute) ≡ 2)
    × (distinct (split_csv r.picks_execute) ≡ true)
    × (is_in r.duration valid_durations ≡ true)

abbrev pub IsSignup : SignupStore → Type 0
IsSignup s =
    OnRows IsChat s.chats × All (λ (r : ℕ × SubscriptionRequest). RequestIsComplete r.1) s.requests

-- Any conversation may go back to these phases.
pub loose : (phase : Phase) (n m : ℕ) → IsStage phase n m → (m ≡ 0) ⊎ (n ≡ 3)
loose Phase.idle n m h = h
loose Phase.awaiting_email n m h = elim h [ ]
loose Phase.awaiting_phone n m h = h
loose Phase.picking_signals n m h = inl h
loose Phase.picking_execute n m h = inr h

pub no-IsPicks : (most : ℕ) → IsPicks most []
no-IsPicks most = (tt, refl, omega arith)

pub empty_chat :
    (phase : Phase) (duration : Option String)
    → IsStage phase 0 0
    → IsDuration duration
    → IsChatOf phase duration "" ""
empty_chat phase duration stage d = ([], [], refl, refl, no-IsPicks 3, no-IsPicks 2, stage, d)

-- A move to another phase, as the picks allow it.
pub chat_row-IsChat :
    (phase : Phase) (duration : Option String) (p : Profile) (o : Option ChatRow)
    → IsStage phase 0 0
    → IsDuration duration
    → ((row : ChatRow) (n m : ℕ) → IsStage row.state n m → IsStage phase n m)
    → OnRow IsChat o
    → IsChat (chat_row phase duration p o)
chat_row-IsChat phase duration p none fresh d keep h = empty_chat phase duration fresh d
chat_row-IsChat phase duration p (some row) fresh d keep (xs, ys, ex, ey, hx, hy, stage, old) =
    (xs, ys, ex, ey, hx, hy, keep row (length xs) (length ys) stage, d)

pub cleared-IsChat :
    (phase : Phase) (duration : Option String) (p : Profile) (o : Option ChatRow)
    → IsStage phase 0 0
    → IsDuration duration
    → IsChat (with_picks (some []) (some []) (chat_row phase duration p o))
cleared-IsChat phase duration p none stage d = empty_chat phase duration stage d
cleared-IsChat phase duration p (some row) stage d = empty_chat phase duration stage d

module _ (chat_id : ℕ) (p : Profile) (s : SignupStore) (v : IsSignup s) where
  pub move_loose :
      (phase : Phase) (duration : Option String)
      → ((n m : ℕ) → (m ≡ 0) ⊎ (n ≡ 3) → IsStage phase n m)
      → IsDuration duration
      → IsSignup (upsert_state chat_id phase duration p s)
  unfolding upsert_state
  move_loose phase duration into d = (
    OnRows-upsert IsChat chat_id _ s.chats
        (chat_row-IsChat phase duration p (lookup chat_id s.chats) (into 0 0 (inl refl)) d
          (λ row n m stage. into n m (loose row.state n m stage)) (v.0 chat_id))
        v.0,
    v.1,
  )

  pub clear_picks :
      (phase : Phase) (duration : Option String)
      → IsStage phase 0 0
      → IsDuration duration
      → IsSignup
          (set_state_picks chat_id (some []) (some []) (upsert_state chat_id phase duration p s))
  unfolding upsert_state set_state_picks
  clear_picks phase duration stage d = (
    OnRows-modify-upsert IsChat chat_id (with_picks (some []) (some [])) _ s.chats
        (cleared-IsChat phase duration p (lookup chat_id s.chats) stage d) v.0,
    v.1,
  )

-- The picks of a column are those that it was written with.
pub read_back :
    (column : String) (xs : List String) (most : ℕ)
    → column ≡ join_csv xs
    → IsPicks most xs
    → split_csv column ≡ xs
read_back column xs most e h = ap split_csv e ∙ split_csv-join xs h.0

pub signal-IsStage :
    (phase : Phase) (n n' m : ℕ)
    → is_picking PickKind.signal phase ≡ true
    → IsStage phase n m
    → IsStage phase n' m
signal-IsStage Phase.idle n n' m h stage = cc h
signal-IsStage Phase.awaiting_email n n' m h stage = cc h
signal-IsStage Phase.awaiting_phone n n' m h stage = cc h
signal-IsStage Phase.picking_signals n n' m h stage = stage
signal-IsStage Phase.picking_execute n n' m h stage = cc h

pub execute-IsStage :
    (phase : Phase) (n m m' : ℕ)
    → is_picking PickKind.execute phase ≡ true
    → IsStage phase n m
    → IsStage phase n m'
execute-IsStage Phase.idle n m m' h stage = cc h
execute-IsStage Phase.awaiting_email n m m' h stage = cc h
execute-IsStage Phase.awaiting_phone n m m' h stage = cc h
execute-IsStage Phase.picking_signals n m m' h stage = cc h
execute-IsStage Phase.picking_execute n m m' h stage = stage
