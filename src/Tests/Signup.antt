-- ===== src/Tests/Signup.antt =====
-- A sign-up over Telegram from its first message to the account, at concrete inputs.
use forex_ea.Prelude.{ℕ, ◌≡◌, refl, none, some, List, [], ◌∷◌, String, All, true, false}
use forex_ea.Users.{UserStore, assign, parse_duration, unclaimed_pool, is_user_ad_id}
use forex_ea.Signup.{
  Profile, SubscriptionRequest, RequestStatus, get_request, upsert_state, get_state,
  set_state_picks, create_request, set_update_offset,
}
use forex_ea.Signup.Csv.{split_csv}
use forex_ea.Signup.Bot.{
  send_welcome, send_picker, refresh_picker, clean_phone, handle_phone, handle_pick_toggle,
  handle_pick_done, finalize_signup,
}
use forex_ea.Signup.Bot.Updates.{Received, Update, run, tap_of, handle_callback, handle_message}
use forex_ea.Signup.Bot.Stage.{RequestIsComplete}
use forex_ea.Signup.Bot.Filed.{new_bot, IsPlainUpdate, run-IsComplete}
use forex_ea.Accounts.{reply}
use forex_ea.Accounts.Endpoints.{Accounts, Approval, Delivery, approve_subscription_request}
use forex_ea.Accounts.Approved.{IsOutcome, approve-IsOutcome}

abbrev profile : Profile
profile = record { username = some "ann"; first_name = some "Ann" }

abbrev received : Update → Received
received u = record {
  update_id = 1;
  update = u;
  answers = record { now = 7; sent_id = some 3; edit_ok = true; copyable = none };
}

abbrev tapped : String → Received
tapped callback_data = received (Update.callback_query 5 profile callback_data)

abbrev chat : List Received
chat =
    received (Update.message 5 profile "/start" none)
    ∷ tapped "dur:1w"
    ∷ received (Update.message 5 profile "" (some "27 82"))
    ∷ tapped "pick:signal:ma_crossover"
    ∷ tapped "pick:signal:macd_cross"
    ∷ tapped "pick:signal:adx_breakout"
    ∷ tapped "pickdone:signal"
    ∷ tapped "pick:execute:ma_crossover"
    ∷ tapped "pick:execute:macd_cross"
    ∷ tapped "pickdone:execute"
    ∷ []

chat-IsPlain : All (λ (r : Received). IsPlainUpdate r.update) chat
unfolding tap_of
chat-IsPlain = (
  tt,
  (
    tt,
    (
      tt,
      (
        (refl, refl, refl),
        (
          (refl, refl, refl),
          ((refl, refl, refl), (tt, ((refl, refl, refl), ((refl, refl, refl), (tt, tt))))),
        ),
      ),
    ),
  ),
)

run-IsComplete_example :
    All (λ (r : ℕ × SubscriptionRequest). RequestIsComplete r.1) (run new_bot chat).store.requests
run-IsComplete_example = run-IsComplete chat chat-IsPlain

abbrev request : SubscriptionRequest
request = record {
  telegram_chat_id = 5;
  telegram_username = some "ann";
  telegram_first_name = some "Ann";
  duration = "1w";
  email = "";
  phone_number = some "+27 82";
  status = RequestStatus.pending;
  created_at = 7;
  decided_at = none;
  decided_by = none;
  assigned_ad_id = none;
  rejection_reason = none;
  picks_signal = "ma_crossover,macd_cross,adx_breakout";
  picks_execute = "ma_crossover,macd_cross";
}

-- The conversation ends with this request in the table.
chat-filed : get_request 1 (run new_bot chat).store ≡ some request
unfolding run handle_message send_welcome send_picker refresh_picker upsert_state get_state
    handle_callback tap_of handle_phone clean_phone set_state_picks handle_pick_toggle
    handle_pick_done finalize_signup create_request get_request set_update_offset split_csv
chat-filed = refl

abbrev users : UserStore
users = record { users = []; pool = "AD-0000000A" ∷ []; used_tokens = []; picks = [] }

abbrev accounts : Accounts
accounts = record { users = users; signup = (run new_bot chat).store }

abbrev approval : Approval
approval = record {
  admin = "Admi8X";
  now = 9;
  ad_id = none;
  duration = none;
  delivery = Delivery.telegram;
  telegram_ok = true;
  mail_ok = false;
}

approve-IsOutcome_example :
    IsOutcome 1 approval request accounts (approve_subscription_request 1 approval accounts)
approve-IsOutcome_example =
    approve-IsOutcome 1 approval request accounts (λ id h. refl) (run-IsComplete chat chat-IsPlain)
      chat-filed

-- What the approval answers.
approval-reply : (approve_subscription_request 1 approval accounts).1 ≡ reply "AD-0000000A"
unfolding approve_subscription_request unclaimed_pool is_user_ad_id parse_duration assign
approval-reply = rw chat-filed refl
