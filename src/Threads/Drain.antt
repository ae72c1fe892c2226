-- ===== src/Threads/Drain.antt =====
-- A daily session whose writes fail (src/wx/keep_wx_account_session.cpp: the loop of on_connected, whose
-- branch for a failed write is empty).
use schedule_center.Base.{
  ℕ, zero, suc, ◌+◌, ◌*◌, ◌≤◌, ◌<◌, Bool, true, false, ◌&&◌, List, [], ◌∷◌, Option, none, some, ◌≡◌,
  refl, ap, ◌∙◌, arith, All, length, length-append, if◌then◌else◌,
}
use schedule_center.Base.Text.{Text}
use schedule_center.Boost.{Boost}
use schedule_center.Json.{Json}
use schedule_center.Mysql.{Connector, Login}
use schedule_center.Mysql.Live.{IsLive}
use schedule_center.Devices.{DeviceMgr, set_status, device_status_daily_task}
use schedule_center.Devices.Status.{get_status-set_status}
use schedule_center.Accounts.{AccountMgr, get_idle_not_daily_task_account}
use schedule_center.Accounts.Idle.{Turn}
use schedule_center.Accounts.Daily.{NeedsDaily, IdleKnown, get_idle_not_daily_task_account_lem}
use schedule_center.Accounts.Known.{apply-IdleKnown, daily_turn}
use schedule_center.Sessions.{Handled, returns}
use schedule_center.Threads.{
  Input, runs, taking, sending, reading, leaving, Session, Common, goes, taken, message, step,
}
use schedule_center.Threads.Running.{run}
use schedule_center.Threads.Turns.{run-first}

-- The same turn, `k` times, of the only session.
abbrev pub turns_of : ℕ → Input → List (ℕ × Input)
turns_of zero i = []
turns_of (suc k) i = (0, i) ∷ turns_of k i

-- A daily session before it takes an account.
abbrev pub daily : {j : Json} → Session j → Session j
daily s = record s { pt = none; pc = taking }

module _ (b : Boost) (c : Connector) (login : Login) (j : Json) where
  -- How a daily session's loop ends when its writes fail.
  pub record Drained (s : Session j) (w : Common c login) (n : ℕ) : Type 0 where
    pub turns : ℕ
    pub few : turns ≤ 2 * n
    pub session : Session j
    pub common : Common c login
    pub ran :
        run b c login j
          (turns_of turns (runs false))
          (record { sessions = daily s ∷ []; common = w })
        ≡ some (returns (record { sessions = session ∷ []; common = common }))
    pub over : session.pc ≡ leaving
    pub silent : session.messages ≡ s.messages
    pub kept : common.shared.accounts.accounts_pro ≡ w.shared.accounts.accounts_pro
    pub none_left :
        All
          (λ acc. ¬ NeedsDaily w.shared.accounts.accounts_pro acc)
          common.shared.accounts.idle_accounts

  step-taking :
      (s : Session j) (w : Common c login) (r : Option Text × AccountMgr c)
      → get_idle_not_daily_task_account c w.shared.accounts ≡ r
      → step b c login j (runs false) (daily s) w ≡ taken b c login j leaving sending r (daily s) w
  unfolding step
  step-taking s w r e = ap (λ t. taken b c login j leaving sending t (daily s) w) e

  send-fails :
      (t : Bool) (x y : Option (Handled (Session j × Common c login)))
      → (if t && false then x else y) ≡ y
  send-fails true x y = refl
  send-fails false x y = refl

  step-sending :
      (s : Session j) (w : Common c login) (acc : Text) (d : DeviceMgr c)
      → set_status c login s.ip device_status_daily_task w.shared.devices ≡ some d
      → step b c login j (runs false) (record (daily s) { pc = sending acc }) w
        ≡ some (returns (daily s, record w { shared = record w.shared { devices = d } }))
  unfolding step
  step-sending s w acc d e =
      let w' : Common c login = record w { shared = record w.shared { devices = d } } in
      rw e (
        send-fails s.socket_open
          (goes b c login j (reading acc)
            (record (daily s) {
              messages =
                  message b c login j none acc (record (daily s) { pc = sending acc }) w'
                  ∷ s.messages;
            })
            w')
          (goes b c login j taking (daily s) w'))

  finished :
      (s : Session j) (w : Common c login) (n : ℕ) (m : AccountMgr c)
      → get_idle_not_daily_task_account c w.shared.accounts ≡ (none, m)
      → All (λ acc. ¬ NeedsDaily w.shared.accounts.accounts_pro acc) w.shared.accounts.idle_accounts
      → m ≡ w.shared.accounts
      → Drained s w (suc n)
  unfolding run
  finished s w n m e none_fit same = record {
    turns = 1;
    few = omega arith;
    session = record (daily s) { pc = leaving };
    common = record w { shared = record w.shared { accounts = m } };
    ran = run-first b c login j (runs false) [] (daily s) _ [] w _ (step-taking s w (none, m) e);
    over = refl;
    silent = refl;
    kept = ap (λ (a : AccountMgr c). a.accounts_pro) same;
    none_left = rw same none_fit;
  }

  onward :
      (s : Session j) (w : Common c login) (n : ℕ) (acc : Text) (m : AccountMgr c) (d : DeviceMgr c)
      → get_idle_not_daily_task_account c w.shared.accounts ≡ (some acc, m)
      → m.accounts_pro ≡ w.shared.accounts.accounts_pro
      → set_status c login s.ip device_status_daily_task w.shared.devices ≡ some d
      → Drained s (record w { shared = record w.shared { accounts = m; devices = d } }) n
      → Drained s w (suc n)
  onward s w n acc m d e same set rest = record {
    turns = suc (suc rest.turns);
    few = omega (arith, rest.few);
    session = rest.session;
    common = rest.common;
    ran =
        run-first b c login j (runs false) (turns_of (suc rest.turns) (runs false)) (daily s) _ [] w
          _ (step-taking s w (some acc, m) e)
        ∙ run-first b c login j (runs false) (turns_of rest.turns (runs false))
            (record (daily s) { pc = sending acc }) _ []
            (record w { shared = record w.shared { accounts = m } }) _
            (step-sending s (record w { shared = record w.shared { accounts = m } }) acc d set)
        ∙ rest.ran;
    over = rest.over;
    silent = rest.silent;
    kept = rest.kept ∙ same;
    none_left = rw same at rest.none_left;
  }

  round :
      (n : ℕ) (s : Session j) (w : Common c login) (r : Option Text × AccountMgr c)
      → ((w' : Common c login)
          → length w'.shared.accounts.idle_accounts < n
          → IsLive w'.shared.devices.db
          → IdleKnown w'.shared.accounts.accounts_pro w'.shared.accounts.idle_accounts
          → Drained s w' n)
      → length w.shared.accounts.idle_accounts < suc n
      → length s.ip ≤ 500
      → IsLive w.shared.devices.db
      → get_idle_not_daily_task_account c w.shared.accounts ≡ r
      → Turn c (NeedsDaily w.shared.accounts.accounts_pro) w.shared.accounts r
      → IdleKnown r.1.accounts_pro r.1.idle_accounts
      → Drained s w (suc n)
  round n s w (none, m) again less short live e (none_fit, same) known =
      finished s w n m e none_fit same
  round n s w (some acc, m) again less short live e (before, after, split, same, _, _) known =
      let (d, set, live', _) =
        get_status-set_status login s.ip device_status_daily_task w.shared.devices live short in
      onward s w n acc m d e (ap (λ (a : AccountMgr c). a.accounts_pro) same) set (
        again (record w { shared = record w.shared { accounts = m; devices = d } })
          (omega (
            arith,
            ap length split,
            ap (λ (a : AccountMgr c). length a.idle_accounts) same,
            length-append before (acc ∷ after),
            length-append before after,
          ))
          live' known)

  drain :
      (n : ℕ) (s : Session j) (w : Common c login)
      → length w.shared.accounts.idle_accounts < n
      → length s.ip ≤ 500
      → IsLive w.shared.devices.db
      → IdleKnown w.shared.accounts.accounts_pro w.shared.accounts.idle_accounts
      → Drained s w n
  drain zero s w less short live known = absurd (omega arith)
  drain (suc n) s w less short live known =
      round n s w (get_idle_not_daily_task_account c w.shared.accounts)
        (λ w' less' live' known'. drain n s w' less' short live' known') less short live refl
        (get_idle_not_daily_task_account_lem w.shared.accounts known)
        (apply-IdleKnown login daily_turn w.shared.accounts _ tt refl known)

  -- The loop of a daily session whose writes fail ends, after at most two steps for each idle account
  -- and two more, if every idle account is known, the pointers of the database of the phones are live
  -- and the phone's address is of at most 500 bytes. It has then sent nothing, and no idle account
  -- needs its daily task any more, although no account's properties have changed.
  pub run-Drained :
      (s : Session j) (w : Common c login)
      → length s.ip ≤ 500
      → IsLive w.shared.devices.db
      → IdleKnown w.shared.accounts.accounts_pro w.shared.accounts.idle_accounts
      → Drained s w (length w.shared.accounts.idle_accounts + 1)
  run-Drained s w short live known =
      drain (length w.shared.accounts.idle_accounts + 1) s w (omega arith) short live known
