-- ===== src/Sessions.antt =====
-- The sessions' read handlers (src/wx/wx_vote_session.cpp, keep_wx_account_session.cpp) and the
-- counts of wx_vote (src/wx/wx_vote.cpp) that they keep: what a phone's answer about an account does.
-- `none` is a run that C++ leaves undefined. The handlers start here at the parsed answer.
pub mod Answers
pub mod Wire
pub mod Frames
use schedule_center.Base.{
  ℕ, ◌+◌, ◌%◌, ◌^◌, Bool, false, ◌||◌, List, [], ◌∷◌, Option, none, some, ◌==◌, ltb, if◌then◌else◌,
  ◌>>=◌,
}
use schedule_center.Base.Text.{Text, codes, text_eq}
use schedule_center.Mysql.{Connector, Login}
use schedule_center.Json.{Json}
use schedule_center.Protocol.{cmd_wx_login}
use schedule_center.Devices.{
  DeviceMgr, set_status, get_status_count, device_status_wx_voting, device_status_wx_vote_end,
  device_status_daily_task_end,
}
use schedule_center.Accounts.Data.{
  wx_account_status_voted, wx_account_status_abnormal, wx_account_dailytask_finished,
}
use schedule_center.Accounts.{
  AccountMgr, set_vote_status, set_acc_status, set_everyday_task, set_idle_account,
}
use schedule_center.Phones.{Ec, no_error, operation_aborted, other_error}

-- `wx_vote`; the counts are the 32-bit patterns of `int`s.
pub record WxVote : Type 0 where
  pub success_count : ℕ
  pub target_count : ℕ

unfoldable pub add_suc_count : ℕ → WxVote → WxVote
add_suc_count n v = record v { success_count = (v.success_count + n) % 2 ^ 32 }

unfoldable pub get_suc_count : WxVote → ℕ
get_suc_count v = v.success_count

-- `<` on `int`
abbrev pub int_lt : ℕ → ℕ → Bool
int_lt a b = ltb ((a + 2 ^ 31) % 2 ^ 32) ((b + 2 ^ 31) % 2 ^ 32)

unfoldable pub need_vote : WxVote → Bool
need_vote v = int_lt v.success_count v.target_count

-- The messages after which an account is given up.
abbrev pub blocking_messages : List Text
blocking_messages =
    codes "Illegal account"
    ∷ codes "User or password wrong"
    ∷ codes "Need unlock"
    ∷ codes "Need SMS verify"
    ∷ codes "Need codes"
    ∷ []

abbrev pub is_one_of : Text → List Text → Bool
is_one_of t [] = false
is_one_of t (x ∷ xs) = text_eq t x || is_one_of t xs

-- How a handler ends: it returns, or an exception leaves it.
pub data Handled (S : Type 0) : Type 0 where
  returns : S → Handled S
  escapes : Handled S

module _ (c : Connector) (login : Login) where
  -- What the sessions share.
  pub record Shared : Type 0 where
    pub accounts : AccountMgr c
    pub devices : DeviceMgr c
    pub votes : WxVote

  unfoldable pub need_wait_vote : Shared → Bool
  need_wait_vote s =
      (s.votes.success_count + get_status_count c device_status_wx_voting s.devices) % 2 ^ 32
      == s.votes.target_count

  -- The failed answer to a login, by its message; a missing one throws.
  abbrev pub login_refused : Text → Option Text → Shared → Option (Handled Shared)
  login_refused acc none s = some escapes
  login_refused acc (some message) s =
      if is_one_of message blocking_messages
      then (set_acc_status c login acc wx_account_status_abnormal s.accounts >>= λ a.
          some (returns (record s { accounts = a })))
      else some (returns s)

  -- A failed answer, by its command; a missing one throws.
  abbrev pub refused : Text → Option Text → Option Text → Shared → Option (Handled Shared)
  refused acc none message s = some escapes
  refused acc (some cmd) message s =
      if text_eq cmd cmd_wx_login then login_refused acc message s else some (returns s)

  -- The end of the branch of a read that succeeded: the account is idle again.
  abbrev pub give_back : Text → Handled Shared → Handled Shared
  give_back acc escapes = escapes
  give_back acc (returns s) = returns (record s { accounts = set_idle_account c acc s.accounts })

  -- The parsed answer: `succeed` for the result 0; a result that is no integer throws.
  abbrev pub on_result :
      (Shared → Option Shared)
      → Text
      → Option ℕ
      → Option Text
      → Option Text
      → Shared
      → Option (Handled Shared)
  on_result succeed acc none cmd message s = some escapes
  on_result succeed acc (some r) cmd message s =
      (if r == 0 then (succeed s >>= λ s'. some (returns s')) else refused acc cmd message s)
      >>= λ h. some (give_back acc h)

  abbrev pub on_answer :
      (j : Json) → (Shared → Option Shared) → Text → j.Ptree → Shared → Option (Handled Shared)
  on_answer j succeed acc pt s =
      on_result succeed acc (j.get_int pt (codes "result")) (j.get_string pt (codes "cmd"))
        (j.get_string pt (codes "message")) s

  -- The last statement of both handlers.
  abbrev pub end_with : Text → ℕ → Handled Shared → Option (Handled Shared)
  end_with ip status escapes = some escapes
  end_with ip status (returns s) =
      set_status c login ip status s.devices >>= λ d. some (returns (record s { devices = d }))

  -- A vote that succeeded.
  abbrev pub vote_succeeds : Text → Text → Shared → Option Shared
  vote_succeeds acc url s =
      set_vote_status c login acc url wx_account_status_voted s.accounts >>= λ a.
      some (record s { accounts = a; votes = add_suc_count 1 s.votes })

  -- A daily task that succeeded.
  abbrev pub daily_succeeds : Text → Shared → Option Shared
  daily_succeeds acc s =
      set_everyday_task c login acc wx_account_dailytask_finished s.accounts >>= λ a.
      some (record s { accounts = a })

  -- `wx_vote_session::handle_read`: an answer that does not parse is dropped.
  unfoldable pub vote_read :
      (j : Json) → Text → Text → Text → Ec → Option j.Ptree → Shared → Option (Handled Shared)
  unfolding add_suc_count
  vote_read j ip acc url no_error (some pt) s =
      on_answer j (vote_succeeds acc url) acc pt s >>= end_with ip device_status_wx_vote_end
  vote_read j ip acc url _ _ s = end_with ip device_status_wx_vote_end (returns s)

  -- `keep_wx_account_session::handle_read`: an answer that does not parse throws.
  unfoldable pub daily_read :
      (j : Json) → Text → Text → Ec → Option j.Ptree → Shared → Option (Handled Shared)
  daily_read j ip acc no_error none s = some escapes
  daily_read j ip acc no_error (some pt) s =
      on_answer j (daily_succeeds acc) acc pt s >>= end_with ip device_status_daily_task_end
  daily_read j ip acc _ _ s = end_with ip device_status_daily_task_end (returns s)
