-- ===== src/Sessions/Answers.antt =====
-- What becomes of an account when its phone has answered (wx_vote_session::handle_read and
-- keep_wx_account_session::handle_read).
use schedule_center.Base.{
  ℕ, ◌+◌, ◌%◌, ◌^◌, ◌≤◌, true, false, ◌&&◌, [], ◌∷◌, ◌++◌, Option, none, some, ◌==◌, ◌≡◌, ◌≢◌, refl,
  if◌then◌else◌, arith, length,
}
use schedule_center.Base.Text.{Text, codes, text_eq, text_eq_refl}
use schedule_center.Base.Map.{find}
use schedule_center.Mysql.{Connector, Login}
use schedule_center.Mysql.Live.{IsLive}
use schedule_center.Json.{Json}
use schedule_center.Protocol.{cmd_wx_login}
use schedule_center.Devices.{get_status, device_status_wx_vote_end, device_status_daily_task_end}
use schedule_center.Devices.Status.{get_status-set_status}
use schedule_center.Accounts.Data.{
  AccountPro, wx_account_status_voted, wx_account_dailytask_finished,
}
use schedule_center.Accounts.{AccountMgr, get_vote_status, set_idle_account}
use schedule_center.Accounts.Idle.{CanVote}
use schedule_center.Accounts.Daily.{NeedsDaily}
use schedule_center.Accounts.Update.{
  get_vote_status-set_vote_status, set_acc_status-abnormal, set_everyday_task-Changed, Changed,
}
use schedule_center.Phones.{no_error}
use schedule_center.Sessions.{
  Shared, returns, end_with, is_one_of, blocking_messages, vote_read, daily_read,
}

test_false : (r : ℕ) → r ≢ 0 → (r == 0) ≡ false
test_false r h = ground arith

done-not-NeedsDaily :
    {c : Connector} (acc : Text) (m m' : AccountMgr c) (o : Option AccountPro)
    → Changed acc (λ p. record p { everyday_task_completed = wx_account_dailytask_finished }) m m'
    → find acc m.accounts_pro ≡ o
    → ¬ NeedsDaily m'.accounts_pro acc
done-not-NeedsDaily acc m m' none changed e v =
    ground (arith, changed.accounts acc, text_eq_refl acc, v.known)
done-not-NeedsDaily acc m m' (some p) changed e v =
    ground (arith, changed.accounts acc, text_eq_refl acc, v.known, v.undone)

module _ {c : Connector} {login : Login} where
  -- Both managers have their pointers.
  pub record IsReady (s : Shared c login) : Type 0 where
    pub accounts_live : IsLive s.accounts.db
    pub devices_live : IsLive s.devices.db

  -- The account is at the end of the idle list, and the phone has the status.
  pub record IsHandedBack (acc ip : Text) (status : ℕ) (s s' : Shared c login) : Type 0 where
    pub ready : IsReady s'
    pub idle : s'.accounts.idle_accounts ≡ s.accounts.idle_accounts ++ acc ∷ []
    pub statuses :
        (j : Text)
        → get_status c j s'.devices ≡ (if text_eq ip j then status else get_status c j s.devices)

  end_with-returns :
      (ip : Text) (status : ℕ) (s t : Shared c login)
      → IsLive t.accounts.db
      → IsLive s.devices.db
      → t.devices ≡ s.devices
      → length ip ≤ 500
      → (s' : Shared c login) × (end_with c login ip status (returns t) ≡ some (returns s'))
        × IsReady s'
        × (s'.accounts ≡ t.accounts)
        × (s'.votes ≡ t.votes)
        × ((j : Text)
            → get_status c j s'.devices
              ≡ (if text_eq ip j then status else get_status c j s.devices))
  end_with-returns ip status s t al dl same short =
      let (d, e, live, statuses) = get_status-set_status login ip status s.devices dl short in
      (
        record t { devices = d },
        rw (end_with, same) (rw e refl),
        record { accounts_live = al; devices_live = live },
        refl,
        refl,
        statuses,
      )

  -- With live pointers, and a name, a url and an ip that fit their queries, the answer that a vote
  -- succeeded makes the handler return with the vote of this account for this url remembered and no
  -- other, one more success, the account at the end of the idle list, and the phone's status at
  -- vote end and no other's changed.
  pub vote_read-succeeded :
      (j : Json) (ip acc url : Text) (pt : j.Ptree) (s : Shared c login)
      → IsReady s
      → length acc + length url ≤ 6000
      → length ip ≤ 500
      → j.get_int pt (codes "result") ≡ some 0
      → (s' : Shared c login) × (vote_read c login j ip acc url no_error (some pt) s
          ≡ some (returns s'))
        × IsHandedBack acc ip device_status_wx_vote_end s s'
        × (s'.votes.success_count ≡ (s.votes.success_count + 1) % 2 ^ 32)
        × ((a u : Text)
            → get_vote_status c a u s'.accounts ≡ (
                if text_eq acc a && text_eq url u
                then wx_account_status_voted
                else get_vote_status c a u s.accounts))
  unfolding vote_read set_idle_account get_vote_status
  vote_read-succeeded j ip acc url pt s ready short short_ip zero =
      let (a, e, live, idle, votes) =
        get_vote_status-set_vote_status login acc s.accounts url wx_account_status_voted
          ready.accounts_live short in
      let t : Shared c login = record s {
        accounts = set_idle_account c acc a;
        votes = record s.votes { success_count = (s.votes.success_count + 1) % 2 ^ 32 };
      } in
      let (s', run, ready', accounts, count, statuses) =
        end_with-returns ip device_status_wx_vote_end s t live ready.devices_live refl short_ip in
      (
        s',
        rw zero (rw e run),
        record { ready = ready'; idle = rw (accounts, idle) refl; statuses = statuses },
        rw count refl,
        λ b u. rw accounts (votes b u),
      )

  -- With live pointers and a name and an ip of at most 500 bytes, a failed answer to the login with
  -- one of the messages that give an account up makes the handler return with the account fit to
  -- vote for no url, though at the end of the idle list, no further success, and the phone's status
  -- at vote end and no other's changed.
  pub vote_read-refused :
      (j : Json) (ip acc url message : Text) (pt : j.Ptree) (r : ℕ) (s : Shared c login)
      → IsReady s
      → length acc ≤ 500
      → length ip ≤ 500
      → j.get_int pt (codes "result") ≡ some r
      → r ≢ 0
      → j.get_string pt (codes "cmd") ≡ some cmd_wx_login
      → j.get_string pt (codes "message") ≡ some message
      → is_one_of message blocking_messages ≡ true
      → (s' : Shared c login) × (vote_read c login j ip acc url no_error (some pt) s
          ≡ some (returns s'))
        × IsHandedBack acc ip device_status_wx_vote_end s s'
        × (s'.votes ≡ s.votes)
        × ((u : Text) → ¬ CanVote u s'.accounts.accounts_pro acc)
  unfolding vote_read set_idle_account
  vote_read-refused j ip acc url message pt r s ready short short_ip result failed cmd said blocks =
      let (a, e, live, idle, unfit, _) =
        set_acc_status-abnormal login acc s.accounts ready.accounts_live short in
      let t : Shared c login = record s { accounts = set_idle_account c acc a } in
      let (s', run, ready', accounts, count, statuses) =
        end_with-returns ip device_status_wx_vote_end s t live ready.devices_live refl short_ip in
      (
        s',
        rw (result, cmd, said)
            (rw (test_false r failed, text_eq_refl cmd_wx_login, blocks) (rw e run)),
        record { ready = ready'; idle = rw (accounts, idle) refl; statuses = statuses },
        count,
        λ u. rw accounts (unfit u),
      )

  -- With live pointers and an ip of at most 500 bytes, an answer that does not parse makes the
  -- voting handler return with the accounts and the idle list as they were, so the account is not
  -- handed back, and the phone's status at vote end and no other's changed.
  pub vote_read-garbled :
      (j : Json) (ip acc url : Text) (s : Shared c login)
      → IsReady s
      → length ip ≤ 500
      → (s' : Shared c login) × (vote_read c login j ip acc url no_error none s ≡ some (returns s'))
        × IsReady s'
        × (s'.accounts ≡ s.accounts)
        × (s'.votes ≡ s.votes)
        × ((p : Text)
            → get_status c p s'.devices
              ≡ (if text_eq ip p then device_status_wx_vote_end else get_status c p s.devices))
  unfolding vote_read
  vote_read-garbled j ip acc url s ready short =
      end_with-returns ip device_status_wx_vote_end s s ready.accounts_live ready.devices_live refl
        short

  -- With live pointers and a name and an ip of at most 500 bytes, the answer that a daily task
  -- succeeded makes the handler return with the account in no need of its daily task, at the end of
  -- the idle list, and the phone's status at the end of a daily task and no other's changed.
  pub daily_read-succeeded :
      (j : Json) (ip acc : Text) (pt : j.Ptree) (s : Shared c login)
      → IsReady s
      → length acc ≤ 500
      → length ip ≤ 500
      → j.get_int pt (codes "result") ≡ some 0
      → (s' : Shared c login) × (daily_read c login j ip acc no_error (some pt) s
          ≡ some (returns s'))
        × IsHandedBack acc ip device_status_daily_task_end s s'
        × (s'.votes ≡ s.votes)
        × (¬ NeedsDaily s'.accounts.accounts_pro acc)
  unfolding daily_read set_idle_account
  daily_read-succeeded j ip acc pt s ready short short_ip zero =
      let (a, e, changed) =
        set_everyday_task-Changed login acc s.accounts wx_account_dailytask_finished
          ready.accounts_live short in
      let t : Shared c login = record s { accounts = set_idle_account c acc a } in
      let (s', run, ready', accounts, count, statuses) =
        end_with-returns ip device_status_daily_task_end s t changed.live ready.devices_live refl
          short_ip in
      (
        s',
        rw zero (rw e run),
        record { ready = ready'; idle = rw (accounts, changed.idle) refl; statuses = statuses },
        count,
        rw accounts (done-not-NeedsDaily acc s.accounts a _ changed refl),
      )
