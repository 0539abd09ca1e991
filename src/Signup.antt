-- ===== src/Signup.antt =====
-- The sign-up over Telegram. Here the store of requests and conversations,
-- src/api/subscription_requests.py; Signup/Bot is the bot that writes it. The column `updated_at`, which
-- nothing reads, is left out. A chat's ID is a positive number, as in a private chat.
pub mod Csv
pub mod Picks
pub mod Bot
use forex_ea.Prelude.{
  ℕ, suc, ◌+◌, Bool, true, false, not, ◌&&◌, Option, none, some, List, [], ◌∷◌, ◌++◌, String, map,
  select, take, length, leb, nat_beq, if◌then◌else◌,
}
use forex_ea.Result.{Result, ok, err, Raised, ◌>>◌, raise_if}
use forex_ea.Table.{Table, lookup, upsert, modify, ◌==◌, string_eq, nat_eq}
use forex_ea.Users.{or_old, is_in}
use forex_ea.Signup.Csv.{join_csv, split_csv}

abbrev pub valid_durations : List String
valid_durations = "5h" ∷ "1w" ∷ "2w" ∷ "1m" ∷ "2m" ∷ "3m" ∷ []

pub data RequestStatus : Type 0 where
  pending approved rejected : RequestStatus

-- The states of a conversation.
pub data Phase : Type 0 where
  idle awaiting_email awaiting_phone picking_signals picking_execute : Phase

-- A row of `telegram_chat_state` without its key; the picks are comma-separated.
pub record ChatRow : Type 0 where
  pub telegram_username : Option String
  pub first_name : Option String
  pub state : Phase
  pub duration : Option String
  pub picks_signal : String
  pub picks_execute : String

-- What `get_state` returns.
pub record ChatState : Type 0 where
  pub state : Phase
  pub duration : Option String
  pub picks_signal : List String
  pub picks_execute : List String

pub record SubscriptionRequest : Type 0 where
  pub telegram_chat_id : ℕ
  pub telegram_username : Option String
  pub telegram_first_name : Option String
  pub duration : String
  pub email : String
  pub phone_number : Option String
  pub status : RequestStatus
  pub created_at : ℕ
  pub decided_at : Option ℕ
  pub decided_by : Option String
  pub assigned_ad_id : Option String
  pub rejection_reason : Option String
  pub picks_signal : String
  pub picks_execute : String

pub record SignupStore : Type 0 where
  pub chats : Table ℕ ChatRow
  pub requests : Table ℕ SubscriptionRequest
  -- The last ID that AUTOINCREMENT gave.
  pub last_id : ℕ
  pub update_offset : Option ℕ

-- Who writes: the columns of the profile.
pub record Profile : Type 0 where
  pub username : Option String
  pub first_name : Option String

abbrev pub read_row : ChatRow → ChatState
read_row row = record {
  state = row.state;
  duration = row.duration;
  picks_signal = split_csv row.picks_signal;
  picks_execute = split_csv row.picks_execute;
}

abbrev pub read_chat : Option ChatRow → Option ChatState
read_chat none = none
read_chat (some row) = some (read_row row)

unfoldable pub get_state : ℕ → SignupStore → Option ChatState
get_state chat_id s = read_chat (lookup chat_id s.chats)

abbrev pub or_kept : Option (List String) → String → String
or_kept none column = column
or_kept (some names) column = join_csv names

abbrev pub with_picks : Option (List String) → Option (List String) → ChatRow → ChatRow
with_picks signal execute row = record row {
  picks_signal = or_kept signal row.picks_signal;
  picks_execute = or_kept execute row.picks_execute;
}

unfoldable pub set_state_picks :
    ℕ → Option (List String) → Option (List String) → SignupStore → SignupStore
set_state_picks chat_id signal execute s = record s {
  chats = modify chat_id (with_picks signal execute) s.chats;
}

abbrev pub chat_row : Phase → Option String → Profile → Option ChatRow → ChatRow
chat_row state duration p none = record {
  telegram_username = p.username;
  first_name = p.first_name;
  state = state;
  duration = duration;
  picks_signal = "";
  picks_execute = "";
}
chat_row state duration p (some row) = record row {
  telegram_username = or_old p.username row.telegram_username;
  first_name = or_old p.first_name row.first_name;
  state = state;
  duration = duration;
}

unfoldable pub upsert_state : ℕ → Phase → Option String → Profile → SignupStore → SignupStore
upsert_state chat_id state duration p s = record s {
  chats = upsert chat_id (chat_row state duration p (lookup chat_id s.chats)) s.chats;
}

-- The arguments of `create_request` besides the duration.
pub record Details : Type 0 where
  pub chat_id : ℕ
  pub profile : Profile
  pub email : String
  pub phone_number : Option String
  pub picks_signal : List String
  pub picks_execute : List String

abbrev pub new_request : ℕ → String → Details → SubscriptionRequest
new_request now duration d = record {
  telegram_chat_id = d.chat_id;
  telegram_username = d.profile.username;
  telegram_first_name = d.profile.first_name;
  duration = duration;
  email = d.email;
  phone_number = d.phone_number;
  status = RequestStatus.pending;
  created_at = now;
  decided_at = none;
  decided_by = none;
  assigned_ad_id = none;
  rejection_reason = none;
  picks_signal = join_csv d.picks_signal;
  picks_execute = join_csv d.picks_execute;
}

unfoldable pub create_request : ℕ → String → Details → SignupStore → Result SignupStore
create_request now duration d s =
    raise_if (not (is_in duration valid_durations)) Raised.value_error
    >> ok (record s {
      requests = s.requests ++ (s.last_id + 1, new_request now duration d) ∷ [];
      last_id = s.last_id + 1;
    })

abbrev pub is_pending : RequestStatus → Bool
is_pending RequestStatus.pending = true
is_pending RequestStatus.approved = false
is_pending RequestStatus.rejected = false

-- A stable sort by `created_at`; the newest first in `newest_insert`.
abbrev oldest_insert :
    ℕ × SubscriptionRequest → Table ℕ SubscriptionRequest → Table ℕ SubscriptionRequest
oldest_insert r [] = r ∷ []
oldest_insert r (q ∷ qs) =
    if leb r.1.created_at q.1.created_at then r ∷ q ∷ qs else q ∷ oldest_insert r qs

abbrev oldest_first : Table ℕ SubscriptionRequest → Table ℕ SubscriptionRequest
oldest_first [] = []
oldest_first (r ∷ rs) = oldest_insert r (oldest_first rs)

abbrev newest_insert :
    ℕ × SubscriptionRequest → Table ℕ SubscriptionRequest → Table ℕ SubscriptionRequest
newest_insert r [] = r ∷ []
newest_insert r (q ∷ qs) =
    if leb q.1.created_at r.1.created_at then r ∷ q ∷ qs else q ∷ newest_insert r qs

abbrev newest_first : Table ℕ SubscriptionRequest → Table ℕ SubscriptionRequest
newest_first [] = []
newest_first (r ∷ rs) = newest_insert r (newest_first rs)

pub list_pending : SignupStore → Table ℕ SubscriptionRequest
list_pending s =
    oldest_first (select (λ (r : ℕ × SubscriptionRequest). is_pending r.1.status) s.requests)

pub list_recent : ℕ → SignupStore → Table ℕ SubscriptionRequest
list_recent limit s = take limit (newest_first s.requests)

unfoldable pub get_request : ℕ → SignupStore → Option SubscriptionRequest
get_request request_id s = lookup request_id s.requests

abbrev pub approved_row : ℕ → String → String → SubscriptionRequest → SubscriptionRequest
approved_row now admin ad_id r =
    if is_pending r.status
    then record r {
      status = RequestStatus.approved;
      decided_at = some now;
      decided_by = some admin;
      assigned_ad_id = some ad_id;
    }
    else r

abbrev pub rejected_row : ℕ → String → String → SubscriptionRequest → SubscriptionRequest
rejected_row now admin reason r =
    if is_pending r.status
    then record r {
      status = RequestStatus.rejected;
      decided_at = some now;
      decided_by = some admin;
      rejection_reason = some reason;
    }
    else r

unfoldable pub mark_approved : ℕ → ℕ → String → String → SignupStore → SignupStore
mark_approved now request_id admin ad_id s = record s {
  requests = modify request_id (approved_row now admin ad_id) s.requests;
}

unfoldable pub mark_rejected : ℕ → ℕ → String → String → SignupStore → SignupStore
mark_rejected now request_id admin reason s = record s {
  requests = modify request_id (rejected_row now admin reason) s.requests;
}

pub get_update_offset : SignupStore → ℕ
get_update_offset s = elim s.update_offset [ none ↦ 0 | some update_id ↦ update_id ]

unfoldable pub set_update_offset : ℕ → SignupStore → SignupStore
set_update_offset update_id s = record s { update_offset = some update_id }
