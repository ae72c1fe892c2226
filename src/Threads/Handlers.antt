-- ===== src/Threads/Handlers.antt =====
-- The idle list across the sessions' read handlers (src/wx/wx_vote_session.cpp,
-- keep_wx_account_session.cpp).
use schedule_center.Base.{
  ℕ, ◌+◌, ◌≤◌, Bool, true, false, [], ◌∷◌, Option, none, some, ◌==◌, ◌≡◌, refl, ap, arith,
  if◌then◌else◌, ◌>>=◌, count_if-append, sym, ◌∙◌, >>=-eq-some, some-injective,
}
use schedule_center.Base.Text.{Text, codes, text_eq}
use schedule_center.Json.{Json}
use schedule_center.Mysql.{Connector, Login}
use schedule_center.Protocol.{cmd_wx_login}
use schedule_center.Devices.{DeviceMgr, set_status}
use schedule_center.Accounts.Data.{
  wx_account_status_abnormal, wx_account_status_voted, wx_account_dailytask_finished,
}
use schedule_center.Accounts.{
  AccountMgr, set_vote_status, set_acc_status, set_everyday_task, set_idle_account,
}
use schedule_center.Accounts.Known.{set_account-fields}
use schedule_center.Phones.{Ec, no_error, operation_aborted, other_error}
use schedule_center.Sessions.{
  Shared, Handled, returns, escapes, is_one_of, blocking_messages, login_refused, refused,
  give_back, on_result, end_with, vote_succeeds, daily_succeeds, vote_read, daily_read,
}
use schedule_center.Threads.Idle.{one_if, times}

module _ {c : Connector} {login : Login} where
  -- A handler's result leaves the idle list as it was.
  abbrev SameIdle : Shared c login → Option (Handled (Shared c login)) → Type 0
  SameIdle s none = Unit
  SameIdle s (some escapes) = Unit
  SameIdle s (some (returns s')) = s'.accounts.idle_accounts ≡ s.accounts.idle_accounts

  -- It has no account more often than before, but for one more time the given one.
  abbrev pub IdleWithin : Text → ℕ → Option (Handled (Shared c login)) → Type 0
  IdleWithin x n none = Unit
  IdleWithin x n (some escapes) = Unit
  IdleWithin x n (some (returns s)) = times x s.accounts.idle_accounts ≤ n

  set_account-SameIdle :
      (s : Shared c login) (o : Option (AccountMgr c))
      → ((a : AccountMgr c) → o ≡ some a → a.idle_accounts ≡ s.accounts.idle_accounts)
      → SameIdle s (o >>= λ a. some (returns (record s { accounts = a })))
  set_account-SameIdle s none h = tt
  set_account-SameIdle s (some a) h = h a refl

  SameIdle-if :
      (s : Shared c login) (b : Bool) (r r' : Option (Handled (Shared c login)))
      → SameIdle s r
      → SameIdle s r'
      → SameIdle s (if b then r else r')
  SameIdle-if s true r r' h k = h
  SameIdle-if s false r r' h k = k

  login_refused-SameIdle :
      (s : Shared c login) (acc : Text) (message : Option Text)
      → SameIdle s (login_refused c login acc message s)
  unfolding set_acc_status
  login_refused-SameIdle s acc none = tt
  login_refused-SameIdle s acc (some message) =
      SameIdle-if s (is_one_of message blocking_messages) _ (some (returns s))
        (set_account-SameIdle s (set_acc_status c login acc wx_account_status_abnormal s.accounts)
          (λ a e. (set_account-fields login acc _ _ _ s.accounts a _ refl e).0))
        refl

  refused-SameIdle :
      (s : Shared c login) (acc : Text) (cmd message : Option Text)
      → SameIdle s (refused c login acc cmd message s)
  refused-SameIdle s acc none message = tt
  refused-SameIdle s acc (some cmd) message =
      SameIdle-if s (text_eq cmd cmd_wx_login) _ (some (returns s))
        (login_refused-SameIdle s acc message) refl

  succeed-SameIdle :
      (s : Shared c login) (o : Option (Shared c login))
      → ((s' : Shared c login) → o ≡ some s' → s'.accounts.idle_accounts ≡ s.accounts.idle_accounts)
      → SameIdle s (o >>= λ s'. some (returns s'))
  succeed-SameIdle s none h = tt
  succeed-SameIdle s (some s') h = h s' refl

  give_back-IdleWithin :
      (x acc : Text) (s : Shared c login) (r : Option (Handled (Shared c login)))
      → SameIdle s r
      → IdleWithin x
          (times x s.accounts.idle_accounts + one_if (text_eq x acc))
          (r >>= λ h. some (give_back c login acc h))
  unfolding set_idle_account
  give_back-IdleWithin x acc s none h = tt
  give_back-IdleWithin x acc s (some escapes) h = tt
  give_back-IdleWithin x acc s (some (returns s')) h =
      omega
        (arith, ap (times x) h, count_if-append (text_eq x) s'.accounts.idle_accounts (acc ∷ []))

  on_result-IdleWithin :
      (succeed : Shared c login → Option (Shared c login)) (x acc : Text) (result : Option ℕ)
      (cmd message : Option Text) (s : Shared c login)
      → ((s' : Shared c login)
          → succeed s ≡ some s'
          → s'.accounts.idle_accounts ≡ s.accounts.idle_accounts)
      → IdleWithin x
          (times x s.accounts.idle_accounts + one_if (text_eq x acc))
          (on_result c login succeed acc result cmd message s)
  on_result-IdleWithin succeed x acc none cmd message s h = tt
  on_result-IdleWithin succeed x acc (some r) cmd message s h = give_back-IdleWithin x acc s _ (
      SameIdle-if s (r == 0) _ _ (succeed-SameIdle s (succeed s) h)
        (refused-SameIdle s acc cmd message))

  with_devices-IdleWithin :
      (x : Text) (n : ℕ) (s : Shared c login) (o : Option (DeviceMgr c))
      → times x s.accounts.idle_accounts ≤ n
      → IdleWithin x n (o >>= λ d. some (returns (record s { devices = d })))
  with_devices-IdleWithin x n s none k = tt
  with_devices-IdleWithin x n s (some d) k = k

  end_with-IdleWithin :
      (x : Text) (n : ℕ) (ip : Text) (status : ℕ) (r : Option (Handled (Shared c login)))
      → IdleWithin x n r
      → IdleWithin x n (r >>= end_with c login ip status)
  end_with-IdleWithin x n ip status none h = tt
  end_with-IdleWithin x n ip status (some escapes) h = tt
  end_with-IdleWithin x n ip status (some (returns s)) h =
      with_devices-IdleWithin x n s (set_status c login ip status s.devices) h

  vote_succeeds-idle :
      (acc url : Text) (s s' : Shared c login)
      → vote_succeeds c login acc url s ≡ some s'
      → s'.accounts.idle_accounts ≡ s.accounts.idle_accounts
  unfolding set_vote_status
  vote_succeeds-idle acc url s s' e =
      let (a, set, rest) =
        >>=-eq-some (set_vote_status c login acc url wx_account_status_voted s.accounts) _ e in
      ap (λ (t : Shared c login). t.accounts.idle_accounts) (sym (some-injective _ _ rest))
      ∙ (set_account-fields login acc _ _ _ s.accounts a _ refl set).0

  daily_succeeds-idle :
      (acc : Text) (s s' : Shared c login)
      → daily_succeeds c login acc s ≡ some s'
      → s'.accounts.idle_accounts ≡ s.accounts.idle_accounts
  unfolding set_everyday_task
  daily_succeeds-idle acc s s' e =
      let (a, set, rest) =
        >>=-eq-some (set_everyday_task c login acc wx_account_dailytask_finished s.accounts) _ e in
      ap (λ (t : Shared c login). t.accounts.idle_accounts) (sym (some-injective _ _ rest))
      ∙ (set_account-fields login acc _ _ _ s.accounts a _ refl set).0

  pub vote_read-IdleWithin :
      (j : Json) (x ip acc url : Text) (e : Ec) (pt : Option j.Ptree) (s : Shared c login)
      → IdleWithin x
          (times x s.accounts.idle_accounts + one_if (text_eq x acc))
          (vote_read c login j ip acc url e pt s)
  unfolding vote_read
  vote_read-IdleWithin j x ip acc url no_error (some pt) s = end_with-IdleWithin x _ ip _ _ (
      on_result-IdleWithin (vote_succeeds c login acc url) x acc (j.get_int pt (codes "result"))
        (j.get_string pt (codes "cmd")) (j.get_string pt (codes "message")) s
        (vote_succeeds-idle acc url s))
  vote_read-IdleWithin j x ip acc url no_error none s =
      end_with-IdleWithin x _ ip _ (some (returns s)) (omega arith)
  vote_read-IdleWithin j x ip acc url operation_aborted pt s =
      end_with-IdleWithin x _ ip _ (some (returns s)) (omega arith)
  vote_read-IdleWithin j x ip acc url other_error pt s =
      end_with-IdleWithin x _ ip _ (some (returns s)) (omega arith)

  pub daily_read-IdleWithin :
      (j : Json) (x ip acc : Text) (e : Ec) (pt : Option j.Ptree) (s : Shared c login)
      → IdleWithin x
          (times x s.accounts.idle_accounts + one_if (text_eq x acc))
          (daily_read c login j ip acc e pt s)
  unfolding daily_read
  daily_read-IdleWithin j x ip acc no_error (some pt) s = end_with-IdleWithin x _ ip _ _ (
      on_result-IdleWithin (daily_succeeds c login acc) x acc (j.get_int pt (codes "result"))
        (j.get_string pt (codes "cmd")) (j.get_string pt (codes "message")) s
        (daily_succeeds-idle acc s))
  daily_read-IdleWithin j x ip acc no_error none s = tt
  daily_read-IdleWithin j x ip acc operation_aborted pt s =
      end_with-IdleWithin x _ ip _ (some (returns s)) (omega arith)
  daily_read-IdleWithin j x ip acc other_error pt s =
      end_with-IdleWithin x _ ip _ (some (returns s)) (omega arith)
