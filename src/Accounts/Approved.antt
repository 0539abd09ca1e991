-- ===== src/Accounts/Approved.antt =====
-- What the approval of a sign-up request in src/api/server.py comes to: from the request that the bot
-- filed to the account and its picks.
use forex_ea.Prelude.{
  arith, ℕ, ◌≡◌, ◌⊎◌, refl, ◌∙◌, Bool, true, false, not, ◌&&◌, ◌||◌, Option, none, some, List, [],
  ◌∷◌, String, Bool-cases, inl, inr, if◌then◌else◌, nat_beq_iff, All, subst,
}
use forex_ea.Result.{Result, ok, err}
use forex_ea.Table.{lookup, ◌==◌, string_eq, nat_eq, lookup-modify, OnRow, OnRows-All}
use forex_ea.Users.{
  UserStore, UserRow, PickKind, admin_ad_id, is_user_ad_id, is_in, assign, assigned_row,
  parse_duration, unclaimed_pool, set_telegram_chat_id,
}
use forex_ea.Users.Fresh.{IsFresh, assign-IsAssigned}
use forex_ea.Users.Picks.{set_user_picks, get_user_picks}
use forex_ea.Users.Picked.{get_user_picks-set}
use forex_ea.Signup.{
  SubscriptionRequest, RequestStatus, is_pending, get_request, mark_approved, approved_row,
}
use forex_ea.Signup.Csv.{split_csv}
use forex_ea.Signup.Bot.Stage.{RequestIsComplete}
use forex_ea.Accounts.{Response, reply, http_error}
use forex_ea.Accounts.Endpoints.{
  Accounts, Approval, approve_subscription_request, granted, grant_of, text_or, chosen, delivered,
  with_ad_id, approve_for, approved_by, next_of,
}

-- The account that an approval seeds.
abbrev pub seeded_row : Approval → ℕ → SubscriptionRequest → UserRow
seeded_row body duration req = record (assigned_row body.now (grant_of req duration)) {
  telegram_chat_id = some req.telegram_chat_id;
}

-- The request as an approval leaves it.
abbrev pub decided_request : Approval → String → SubscriptionRequest → SubscriptionRequest
decided_request body ad_id req = record req {
  status = RequestStatus.approved;
  decided_at = some body.now;
  decided_by = some body.admin;
  assigned_ad_id = some ad_id;
}

-- An approval that has been granted, from the accounts before to those after it.
pub record IsGranted (request_id : ℕ) (body : Approval) (req : SubscriptionRequest) (a : Accounts)
    (ad_id : String) (a' : Accounts) : Type 0 where
  pub was_pending : req.status ≡ RequestStatus.pending
  pub was_pooled : is_in ad_id a.users.pool ≡ true
  pub was_nobody : lookup ad_id a.users.users ≡ none
  pub accounts :
      (duration : ℕ) × (parse_duration (text_or body.duration req.duration) ≡ ok duration)
      × ((j : String)
          → lookup j a'.users.users
            ≡ (if ad_id == j then some (seeded_row body duration req) else lookup j a.users.users))
  pub is_claimed : is_in ad_id a'.users.pool ≡ false
  pub signals : get_user_picks ad_id PickKind.signal a'.users ≡ split_csv req.picks_signal
  pub executes : get_user_picks ad_id PickKind.execute a'.users ≡ split_csv req.picks_execute
  pub is_decided : get_request request_id a'.signup ≡ some (decided_request body ad_id req)
  pub decided_once :
      (again : Approval) → approve_subscription_request request_id again a' ≡ (a', http_error 409)

-- The answer of an approval that changed nothing, and of one that was granted.
abbrev pub IsRefusal : Response String → Type 0
IsRefusal (reply ad_id) = ⊥
IsRefusal (http_error code) = (code ≡ 400) ⊎ (code ≡ 409)

abbrev pub IsOutcome :
    ℕ → Approval → SubscriptionRequest → Accounts → Accounts × Response String → Type 0
IsOutcome request_id body req a (a', r) =
    ((a' ≡ a) × IsRefusal r)
    ⊎ ((ad_id : String) × IsGranted request_id body req a ad_id a'
        × ((r ≡ reply ad_id) ⊎ (r ≡ http_error 502)))

pending-eq : (status : RequestStatus) → is_pending status ≡ true → status ≡ RequestStatus.pending
pending-eq RequestStatus.pending h = refl
pending-eq RequestStatus.approved h = cc h
pending-eq RequestStatus.rejected h = cc h

-- The chat is written to the row that the assignment has placed.
chat_row_lem :
    (ad_id j : String) (chat_id : ℕ) (row : UserRow) (old : Option UserRow) (s : UserStore)
    → lookup j s.users ≡ (if ad_id == j then some row else old)
    → lookup j (set_telegram_chat_id ad_id chat_id s).users
      ≡ (if ad_id == j then some (record row { telegram_chat_id = some chat_id }) else old)
unfolding set_telegram_chat_id
chat_row_lem ad_id j chat_id row old s h = ground (
  arith,
  h,
  lookup-modify ad_id j (λ (r : UserRow). record r { telegram_chat_id = some chat_id }) s.users,
)

chat_pool :
    (ad_id : String) (chat_id : ℕ) (s : UserStore)
    → is_in ad_id (set_telegram_chat_id ad_id chat_id s).pool ≡ is_in ad_id s.pool
unfolding set_telegram_chat_id
chat_pool ad_id chat_id s = refl

decided-refused :
    (request_id : ℕ) (again : Approval) (req : SubscriptionRequest) (a : Accounts)
    → get_request request_id a.signup ≡ some req
    → is_pending req.status ≡ false
    → approve_subscription_request request_id again a ≡ (a, http_error 409)
unfolding approve_subscription_request
decided-refused request_id again req a found decided = rw (found, decided)

answered :
    (out : Bool) (ad_id : String)
    → let r : Response String = if out then reply ad_id else http_error 502 in
      (r ≡ reply ad_id) ⊎ (r ≡ http_error 502)
answered true ad_id = inl refl
answered false ad_id = inr refl

-- The choice of an ID fails with a refusal.
abbrev IsCode : Response String → Type 0
IsCode (reply ad_id) = Unit
IsCode (http_error code) = (code ≡ 400) ⊎ (code ≡ 409)

IsCode-if : (b : Bool) (r s : Response String) → IsCode r → IsCode s → IsCode (if b then r else s)
IsCode-if true r s h k = h
IsCode-if false r s h k = k

next_of-IsCode : (pool : List String) → IsCode (next_of pool)
next_of-IsCode [] = inr refl
next_of-IsCode (ad_id ∷ ids) = tt

chosen-IsCode : (o : Option String) (pool : List String) → IsCode (chosen o pool)
chosen-IsCode none pool = next_of-IsCode pool
chosen-IsCode (some ad_id) pool = IsCode-if (ad_id == "") _ _ (next_of-IsCode pool) (
    IsCode-if (ad_id == admin_ad_id || not (is_user_ad_id ad_id)) (http_error 400) (reply ad_id)
      (inl refl) tt)

module _ (request_id : ℕ) (body : Approval) (req : SubscriptionRequest) (a : Accounts) where
  module _ (fresh : IsFresh a.users) (found : get_request request_id a.signup ≡ some req)
      (complete : RequestIsComplete req) (pending : is_pending req.status ≡ true) where
    request-decided :
        (ad_id : String) (users : UserStore)
        → get_request request_id (granted request_id body ad_id req users a).signup
          ≡ some (decided_request body ad_id req)
    unfolding granted mark_approved get_request
    request-decided ad_id users = rw (
      lookup-modify request_id request_id (approved_row body.now body.admin ad_id)
          a.signup.requests,
      (nat_beq_iff request_id request_id).1 refl,
      found,
      pending,
    )

    granted-IsGranted :
        (ad_id : String) (duration : ℕ) (users : UserStore) (expires : Option ℕ)
        → parse_duration (text_or body.duration req.duration) ≡ ok duration
        → assign body.now ad_id (grant_of req duration) a.users ≡ ok (users, expires)
        → IsGranted request_id body req a ad_id (granted request_id body ad_id req users a)
    unfolding granted set_user_picks
    granted-IsGranted ad_id duration users expires parsed assigned =
        let done =
          assign-IsAssigned body.now ad_id (grant_of req duration) a.users users expires fresh
            assigned in
        let picks =
          get_user_picks-set ad_id (split_csv req.picks_signal) (split_csv req.picks_execute)
            (set_telegram_chat_id ad_id req.telegram_chat_id users) complete.1 complete.3 in
        record {
          was_pending = pending-eq req.status pending;
          was_pooled = done.was_pooled;
          was_nobody = done.was_new;
          accounts = (
            duration,
            parsed,
            λ j.
                chat_row_lem ad_id j req.telegram_chat_id
                  (assigned_row body.now (grant_of req duration)) (lookup j a.users.users) users
                  (done.accounts j),
          );
          is_claimed = chat_pool ad_id req.telegram_chat_id users ∙ done.is_claimed;
          signals = picks.0;
          executes = picks.1;
          is_decided = request-decided ad_id users;
          decided_once = λ again.
              decided-refused request_id again (decided_request body ad_id req)
                (granted request_id body ad_id req users a) (request-decided ad_id users) refl;
        }

    -- The branches of the call, from the last test to the first.
    approved_by-IsOutcome :
        (ad_id : String) (duration : ℕ) (r : Result (UserStore × Option ℕ))
        → parse_duration (text_or body.duration req.duration) ≡ ok duration
        → assign body.now ad_id (grant_of req duration) a.users ≡ r
        → IsOutcome request_id body req a (approved_by request_id body ad_id req r a)
    approved_by-IsOutcome ad_id duration (err raised) parsed e = inl (refl, inr refl)
    approved_by-IsOutcome ad_id duration (ok (users, expires)) parsed e = inr (
      ad_id,
      granted-IsGranted ad_id duration users expires parsed e,
      answered (delivered body.delivery body.telegram_ok (not (req.email == "") && body.mail_ok))
          ad_id,
    )

    approve_for-IsOutcome :
        (ad_id : String) (r : Result ℕ)
        → parse_duration (text_or body.duration req.duration) ≡ r
        → IsOutcome request_id body req a (approve_for request_id body ad_id req r a)
    approve_for-IsOutcome ad_id (err raised) e = inl (refl, inl refl)
    approve_for-IsOutcome ad_id (ok duration) e = approved_by-IsOutcome ad_id duration _ e refl

    with_ad_id-IsOutcome :
        (r : Response String)
        → IsCode r
        → IsOutcome request_id body req a (with_ad_id request_id body req r a)
    with_ad_id-IsOutcome (http_error code) h = inl (refl, h)
    with_ad_id-IsOutcome (reply ad_id) h = approve_for-IsOutcome ad_id _ refl

-- Whatever an approval of a request is answered, where every filed request is complete and the pooled
-- IDs belong to nobody: either nothing has changed, with the status 400 or 409; or the request was
-- pending, and is approved under an ID that the pool held and nobody had, whose new account has the
-- granted subscription, the chat and exactly the strategies of the request, while no other account
-- changed, the ID has left the pool, and every further approval of the request answers 409 and changes
-- nothing. The status 502 then says that the link was not delivered.
pub approve-IsOutcome :
    (request_id : ℕ) (body : Approval) (req : SubscriptionRequest) (a : Accounts)
    → IsFresh a.users
    → All (λ (r : ℕ × SubscriptionRequest). RequestIsComplete r.1) a.signup.requests
    → get_request request_id a.signup ≡ some req
    → IsOutcome request_id body req a (approve_subscription_request request_id body a)
unfolding approve_subscription_request get_request
approve-IsOutcome request_id body req a fresh all found =
    let complete : RequestIsComplete req =
      subst (OnRow RequestIsComplete) found
        (OnRows-All RequestIsComplete a.signup.requests all request_id) in
    rw found (elim (Bool-cases (is_pending req.status)) [
      | inl pending ↦ rw pending (
          with_ad_id-IsOutcome request_id body req a fresh found complete pending
            (chosen body.ad_id (unclaimed_pool a.users))
            (chosen-IsCode body.ad_id (unclaimed_pool a.users)))
      | inr decided ↦ rw decided (inl (refl, inr refl))
    ])
