-- ===== src/Accounts/Endpoints.antt =====
-- The administrator's endpoints of src/api/server.py over the accounts and the sign-up requests. The
-- setup link itself, which a reply or a message carries, is made by the JWT library and left out.
use forex_ea.Prelude.{
  ℕ, zero, suc, ◌/◌, ◌%◌, Bool, true, false, not, ◌&&◌, ◌||◌, Option, none, some, List, [], ◌∷◌,
  String, foldl, length, ltb, nat_beq, if◌then◌else◌,
}
use forex_ea.Result.{Result, ok, err}
use forex_ea.Table.{◌==◌, string_eq}
use forex_ea.Text.{codes}
use forex_ea.Users.{
  UserStore, UserRow, Grant, admin_ad_id, is_set, is_user_ad_id, parse_duration, refill_pool,
  unclaimed_pool, assign, extend, list_expired_unnotified, mark_notified, exists, get_email,
  get_hash, delete_user, set_password, set_telegram_chat_id,
}
use forex_ea.Users.Picks.{set_user_picks}
use forex_ea.Signup.{
  SignupStore, SubscriptionRequest, is_pending, get_request, mark_approved, mark_rejected,
}
use forex_ea.Signup.Csv.{concat, split_csv}
use forex_ea.Accounts.{Response, reply, http_error, first}

pub record Accounts : Type 0 where
  pub users : UserStore
  pub signup : SignupStore

abbrev pub with_users : UserStore → Accounts → Accounts
with_users users a = record a { users = users }

-- `'@' in email` and a dot in `email.split('@')[-1]`
abbrev has_at : List ℕ → Bool
has_at [] = false
has_at (c ∷ cs) = nat_beq c b'@' || has_at cs

abbrev has_dot : List ℕ → Bool
has_dot [] = false
has_dot (c ∷ cs) = nat_beq c b'.' || has_dot cs

abbrev after_last_at : List ℕ → List ℕ
after_last_at [] = []
after_last_at (c ∷ cs) = if has_at (c ∷ cs) then after_last_at cs else c ∷ cs

abbrev looks_like_email : String → Bool
looks_like_email email = has_at (codes email) && has_dot (after_last_at (codes email))

-- The response of `_issue_setup_link`, by the fate of the mail.
abbrev issue_setup_link : String → Bool → Response String
issue_setup_link ad_id mail_ok = if mail_ok then reply ad_id else http_error 502

abbrev assigned_by :
    String → Bool → Result (UserStore × Option ℕ) → Accounts → Accounts × Response String
assigned_by ad_id mail_ok (err raised) a = (a, http_error 409)
assigned_by ad_id mail_ok (ok (users, expires)) a =
    (with_users users a, issue_setup_link ad_id mail_ok)

abbrev assign_for : ℕ → String → String → Result ℕ → Bool → Accounts → Accounts × Response String
assign_for now ad_id email (err raised) mail_ok a = (a, http_error 400)
assign_for now ad_id email (ok duration) mail_ok a =
    let g : Grant = record {
      email = email;
      duration = some duration;
      phone_number = none;
      display_name = none;
    } in
    assigned_by ad_id mail_ok (assign now ad_id g a.users) a

unfoldable pub assign_user :
    ℕ → String → String → String → Bool → Accounts → Accounts × Response String
unfolding is_user_ad_id parse_duration assign
assign_user now ad_id email duration mail_ok a =
    if ad_id == admin_ad_id || not (is_user_ad_id ad_id)
    then (a, http_error 400)
    else if not (looks_like_email email)
    then (a, http_error 400)
    else assign_for now ad_id email (parse_duration duration) mail_ok a

abbrev extended_by : Result (UserStore × ℕ) → Accounts → Accounts × Response ℕ
extended_by (err raised) a = (a, http_error 404)
extended_by (ok (users, expires)) a = (with_users users a, reply expires)

abbrev extend_for : ℕ → String → Result ℕ → Accounts → Accounts × Response ℕ
extend_for now username (err raised) a = (a, http_error 400)
extend_for now username (ok duration) a = extended_by (extend now username duration a.users) a

unfoldable pub extend_user_subscription : ℕ → String → String → Accounts → Accounts × Response ℕ
unfolding parse_duration extend
extend_user_subscription now username duration a =
    if username == admin_ad_id
    then (a, http_error 400)
    else extend_for now username (parse_duration duration) a

pub data Delivery : Type 0 where
  telegram email both : Delivery

-- The body of an approval, with who sends it, when, and the fate of the message and of the mail.
pub record Approval : Type 0 where
  pub admin : String
  pub now : ℕ
  pub ad_id : Option String
  pub duration : Option String
  pub delivery : Delivery
  pub telegram_ok : Bool
  pub mail_ok : Bool

abbrev pub delivered : Delivery → Bool → Bool → Bool
delivered Delivery.telegram telegram_ok email_ok = telegram_ok
delivered Delivery.email telegram_ok email_ok = email_ok
delivered Delivery.both telegram_ok email_ok = telegram_ok || email_ok

abbrev digit : ℕ → String
digit zero = "0"
digit n =
    if nat_beq n 1
    then "1"
    else if nat_beq n 2
    then "2"
    else if nat_beq n 3
    then "3"
    else if nat_beq n 4
    then "4"
    else if nat_beq n 5
    then "5"
    else if nat_beq n 6
    then "6"
    else if nat_beq n 7
    then "7"
    else if nat_beq n 8
    then "8"
    else "9"

-- The decimal digits of a number, with more fuel than digits.
abbrev decimal_onto : ℕ → ℕ → String → String
decimal_onto zero n rest = rest
decimal_onto (suc fuel) n rest =
    let more = decimal_onto fuel (n / 10) (concat (digit (n % 10)) rest) in
    if ltb n 10 then concat (digit n) rest else more

decimal : ℕ → String
decimal n = decimal_onto (suc n) n ""

unfoldable pub contact_email : SubscriptionRequest → String
unfolding decimal
contact_email req =
    if req.email == ""
    then concat "telegram-" (concat (decimal req.telegram_chat_id) "@no-email.local")
    else req.email

-- `a or b`, of texts that may be None
abbrev pub or_text : Option String → Option String → Option String
or_text a b = if is_set a then a else b

abbrev pub text_or : Option String → String → String
text_or none text = text
text_or (some other) text = if other == "" then text else other

unfoldable pub grant_of : SubscriptionRequest → ℕ → Grant
unfolding contact_email
grant_of req duration = record {
  email = contact_email req;
  duration = some duration;
  phone_number = req.phone_number;
  display_name = or_text req.telegram_first_name req.telegram_username;
}

unfoldable pub granted :
    ℕ → Approval → String → SubscriptionRequest → UserStore → Accounts → Accounts
granted request_id body ad_id req users a = record {
  users =
      set_user_picks ad_id (split_csv req.picks_signal) (split_csv req.picks_execute)
        (set_telegram_chat_id ad_id req.telegram_chat_id users);
  signup = mark_approved body.now request_id body.admin ad_id a.signup;
}

abbrev pub approved_by :
    ℕ
    → Approval
    → String
    → SubscriptionRequest
    → Result (UserStore × Option ℕ)
    → Accounts
    → Accounts × Response String
approved_by request_id body ad_id req (err raised) a = (a, http_error 409)
approved_by request_id body ad_id req (ok (users, expires)) a = (
  granted request_id body ad_id req users a,
  if delivered body.delivery body.telegram_ok (not (req.email == "") && body.mail_ok)
      then reply ad_id
      else http_error 502,
)

abbrev pub approve_for :
    ℕ → Approval → String → SubscriptionRequest → Result ℕ → Accounts → Accounts × Response String
approve_for request_id body ad_id req (err raised) a = (a, http_error 400)
approve_for request_id body ad_id req (ok duration) a =
    approved_by request_id body ad_id req (assign body.now ad_id (grant_of req duration) a.users) a

abbrev pub with_ad_id :
    ℕ → Approval → SubscriptionRequest → Response String → Accounts → Accounts × Response String
with_ad_id request_id body req (http_error code) a = (a, http_error code)
with_ad_id request_id body req (reply ad_id) a =
    approve_for request_id body ad_id req (parse_duration (text_or body.duration req.duration)) a

abbrev pub next_of : List String → Response String
next_of [] = http_error 409
next_of (ad_id ∷ ids) = reply ad_id

-- The AD-ID that the body names, or the next one of the pool.
abbrev pub chosen : Option String → List String → Response String
chosen none pool = next_of pool
chosen (some ad_id) pool =
    if ad_id == ""
    then next_of pool
    else if ad_id == admin_ad_id || not (is_user_ad_id ad_id)
    then http_error 400
    else reply ad_id

abbrev pub approve_request :
    ℕ → Approval → Option SubscriptionRequest → Accounts → Accounts × Response String
approve_request request_id body none a = (a, http_error 404)
approve_request request_id body (some req) a =
    if is_pending req.status
    then with_ad_id request_id body req (chosen body.ad_id (unclaimed_pool a.users)) a
    else (a, http_error 409)

unfoldable pub approve_subscription_request : ℕ → Approval → Accounts → Accounts × Response String
approve_subscription_request request_id body a =
    approve_request request_id body (get_request request_id a.signup) a

abbrev reject_request :
    ℕ
    → ℕ
    → String
    → String
    → Option SubscriptionRequest
    → Accounts
    → Accounts × Response (Option SubscriptionRequest)
reject_request now request_id admin reason none a = (a, http_error 404)
reject_request now request_id admin reason (some req) a =
    if is_pending req.status
    then (let signup = mark_rejected now request_id admin reason a.signup in
        (record a { signup = signup }, reply (get_request request_id signup)))
    else (a, http_error 409)

unfoldable pub reject_subscription_request :
    ℕ → ℕ → String → String → Accounts → Accounts × Response (Option SubscriptionRequest)
reject_subscription_request now request_id admin reason a =
    reject_request now request_id admin reason (get_request request_id a.signup) a

pub resend_setup_link : String → Bool → Accounts → Response String
resend_setup_link username mail_ok a =
    if not (exists username a.users)
    then http_error 404
    else if not (is_set (get_email username a.users))
    then http_error 400
    else if is_set (get_hash username a.users)
    then http_error 409
    else issue_setup_link username mail_ok

abbrev removed_by : Result (UserStore × Bool) → Accounts → Accounts × Response Bool
removed_by (err raised) a = (a, http_error 409)
removed_by (ok (users, false)) a = (with_users users a, http_error 404)
removed_by (ok (users, true)) a = (with_users users a, reply true)

unfoldable pub delete_endpoint : String → String → Accounts → Accounts × Response Bool
delete_endpoint admin username a =
    if username == admin then (a, http_error 400) else removed_by (delete_user username a.users) a

abbrev reset_by : String → Result String → Accounts → Accounts × Response Bool
reset_by username (err raised) a = (a, http_error 400)
reset_by username (ok hash) a =
    (with_users (first (set_password username hash a.users)) a, reply true)

unfoldable pub reset_user_password : String → Result String → Accounts → Accounts × Response Bool
reset_user_password username pw_hash a =
    if not (exists username a.users) then (a, http_error 404) else reset_by username pw_hash a

unfoldable pub refill_endpoint : ℕ → List String → Accounts → Option (Accounts × Response ℕ)
refill_endpoint target drawn a =
    if ltb target 1 || ltb 1_000 target
    then some (a, http_error 400)
    else elim (refill_pool target drawn a.users) [
      | none ↦ none
      | some users ↦ some (with_users users a, reply (length (unclaimed_pool users)))
    ]

-- Whether the mail to a user is sent is an argument.
abbrev expiry_mail : (String → Bool) → ℕ → UserStore → String × UserRow → UserStore
expiry_mail mail_ok now s (username, row) =
    if is_set row.email && not (mail_ok username) then s else mark_notified now username s

unfoldable pub send_expiry_emails : (String → Bool) → ℕ → UserStore → UserStore
unfolding list_expired_unnotified mark_notified
send_expiry_emails mail_ok now s = foldl (expiry_mail mail_ok now) s (list_expired_unnotified now s)
