-- ===== src/Threads/Waiting.antt =====
-- A voting session whose write has failed, before `need_wait_vote` again (src/wx/wx_vote_session.cpp:
-- on_connected).
use schedule_center.Base.{
  ℕ, zero, suc, ◌+◌, ◌^◌, ◌<◌, ◌≤◌, true, false, List, [], ◌∷◌, some, ◌≡◌, ◌≢◌, refl, ap, ◌∙◌,
  arith, length,
}
use schedule_center.Base.Text.{Text}
use schedule_center.Boost.{Boost}
use schedule_center.Json.{Json}
use schedule_center.Mysql.{Connector, Login}
use schedule_center.Mysql.Live.{IsLive}
use schedule_center.Devices.{DeviceMgr, get_status, set_status, device_status_wx_voting}
use schedule_center.Accounts.{AccountMgr, get_idle_not_vote_account}
use schedule_center.Sessions.{returns, WxVote, need_wait_vote, need_vote}
use schedule_center.Threads.{
  Input, runs, taking, gating, asking, leaving, Session, Common, taken, with_accounts, step,
}
use schedule_center.Threads.Running.{run}
use schedule_center.Threads.Turns.{run-first}
use schedule_center.Threads.Voters.{
  at_gate, past_gate, votes_of, need_wait_vote_lem, starts_to_vote, with_devices,
}

-- Two turns of the only session, `k` times over.
abbrev pub waits : ℕ → List (ℕ × Input)
waits zero = []
waits (suc k) = (0, runs false) ∷ (0, runs false) ∷ waits k

pub need_vote-true :
    (v : WxVote) → v.success_count < v.target_count → v.target_count < 2 ^ 31 → need_vote v ≡ true
unfolding need_vote
need_vote-true v h small = ground arith

module _ (b : Boost) (c : Connector) (login : Login) (j : Json) where
  gate-closed :
      (s : Session j) (w : Common c login) (pt : j.Ptree) (acc : Text)
      → need_wait_vote c login w.shared ≡ true
      → step b c login j (runs false) (at_gate pt acc s) w
        ≡ some (returns (record (at_gate pt acc s) { pc = asking acc }, w))
  unfolding step
  gate-closed s w pt acc e = rw e refl

  still-needed :
      (s : Session j) (w : Common c login) (pt : j.Ptree) (acc : Text)
      → need_vote w.shared.votes ≡ true
      → step b c login j (runs false) (record (at_gate pt acc s) { pc = asking acc }) w
        ≡ some (returns (at_gate pt acc s, w))
  unfolding step
  still-needed s w pt acc e = rw e refl

  run-waits :
      (k : ℕ) (s : Session j) (w : Common c login) (pt : j.Ptree) (acc : Text)
      → need_wait_vote c login w.shared ≡ true
      → need_vote w.shared.votes ≡ true
      → run b c login j (waits k) (record { sessions = at_gate pt acc s ∷ []; common = w })
        ≡ some (returns (record { sessions = at_gate pt acc s ∷ []; common = w }))
  unfolding run
  run-waits zero s w pt acc wait vote = refl
  run-waits (suc k) s w pt acc wait vote =
      run-first b c login j (runs false) ((0, runs false) ∷ waits k) (at_gate pt acc s) _ [] w w
        (gate-closed s w pt acc wait)
      ∙ run-first b c login j (runs false) (waits k) (record (at_gate pt acc s) { pc = asking acc })
          (at_gate pt acc s) [] w w (still-needed s w pt acc vote)
      ∙ run-waits k s w pt acc wait vote

  pub write-fails :
      (s : Session j) (w : Common c login) (pt : j.Ptree) (acc : Text) (d : DeviceMgr c)
      → set_status c login s.ip device_status_wx_voting w.shared.devices ≡ some d
      → step b c login j (runs false) (past_gate pt acc s) w
        ≡ some (returns (record (past_gate pt acc s) { pc = taking }, with_devices b c login j d w))
  unfolding step
  write-fails s w pt acc d e = rw e refl

  pub takes-next :
      (s : Session j) (w : Common c login) (pt : j.Ptree) (acc next : Text) (a : AccountMgr c)
      → get_idle_not_vote_account c s.order.url w.shared.accounts ≡ (some next, a)
      → step b c login j (runs false) (record (past_gate pt acc s) { pc = taking }) w
        ≡ some (returns (at_gate pt next s, with_accounts c login a w))
  unfolding step
  takes-next s w pt acc next a e =
      ap (λ r. taken b c login j leaving gating r (record (past_gate pt acc s) { pc = taking }) w) e

  -- A session is past the gate with the only vote that is missing, its write fails, and there is
  -- another account to take. Its phone still counts as one that votes, so the session waits before the
  -- gate for its own vote: with no other session, after any number of rounds it stands there in the
  -- same state.
  pub run-stuck :
      (s : Session j) (w : Common c login) (pt : j.Ptree) (acc next : Text) (a : AccountMgr c)
      → votes_of w.shared + 1 ≡ w.shared.votes.target_count
      → w.shared.votes.target_count < 2 ^ 31
      → IsLive w.shared.devices.db
      → length s.ip ≤ 500
      → get_status c s.ip w.shared.devices ≢ device_status_wx_voting
      → get_idle_not_vote_account c s.order.url w.shared.accounts ≡ (some next, a)
      → (w' : Common c login) × ((k : ℕ)
          → run b c login j
              ((0, runs false) ∷ (0, runs false) ∷ waits k)
              (record { sessions = past_gate pt acc s ∷ []; common = w })
            ≡ some (returns (record { sessions = at_gate pt next s ∷ []; common = w' })))
  run-stuck s w pt acc next a one_left small live short free e =
      let (d, v) = starts_to_vote c login s.ip w.shared.devices live short free in
      let w1 : Common c login = with_devices b c login j d w in
      let w2 : Common c login = with_accounts c login a w1 in
      let wait : need_wait_vote c login w2.shared ≡ true =
        need_wait_vote_lem w2.shared (omega (arith, v.one_more)) ∙ ground (arith, v.one_more) in
      (
        w2,
        λ k.
            run-first b c login j (runs false) ((0, runs false) ∷ waits k) (past_gate pt acc s)
              (record (past_gate pt acc s) { pc = taking }) [] w w1 (write-fails s w pt acc d v.set)
            ∙ run-first b c login j (runs false) (waits k)
                (record (past_gate pt acc s) { pc = taking }) (at_gate pt next s) [] w1 w2
                (takes-next s w1 pt acc next a e)
            ∙ run-waits k s w2 pt next wait (need_vote-true w.shared.votes (omega arith) small),
      )
