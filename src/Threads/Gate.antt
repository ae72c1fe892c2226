-- ===== src/Threads/Gate.antt =====
-- The sessions before `need_wait_vote` (src/wx/wx_vote_session.cpp: the inner loop of on_connected;
-- src/wx/wx_vote.cpp: need_wait_vote).
use schedule_center.Base.{
  ℕ, ◌+◌, ◌^◌, ◌≤◌, ◌<◌, true, false, List, [], ◌∷◌, some, ◌≡◌, ◌≢◌, refl, ◌∙◌, arith, length,
}
use schedule_center.Base.Text.{Text, text_eq_iff}
use schedule_center.Boost.{Boost}
use schedule_center.Json.{Json}
use schedule_center.Mysql.{Connector, Login}
use schedule_center.Mysql.Live.{IsLive}
use schedule_center.Devices.{get_status, device_status_wx_voting}
use schedule_center.Sessions.{returns, need_wait_vote}
use schedule_center.Threads.{Input, runs, asking, reading, Session, Common, step}
use schedule_center.Threads.Running.{run}
use schedule_center.Threads.Turns.{run-first, run-second}
use schedule_center.Threads.Voters.{
  at_gate, past_gate, votes_of, need_wait_vote_lem, starts_to_vote, with_devices, send-vote,
}

-- A step of the first of two sessions and then one of the second, and this twice.
abbrev pub alternate : List (ℕ × Input) → List (ℕ × Input)
alternate turns = (0, runs true) ∷ (1, runs true) ∷ turns

abbrev pub alternating : List (ℕ × Input)
alternating = alternate (alternate [])

-- Both steps of the first session, and then one of the second.
abbrev pub one_by_one : List (ℕ × Input)
one_by_one = (0, runs true) ∷ (0, runs true) ∷ (1, runs true) ∷ []

module _ (b : Boost) (c : Connector) (login : Login) (j : Json) where
  gate-open :
      (s : Session j) (w : Common c login) (pt : j.Ptree) (acc : Text)
      → need_wait_vote c login w.shared ≡ false
      → step b c login j (runs true) (at_gate pt acc s) w ≡ some (returns (past_gate pt acc s, w))
  unfolding step
  gate-open s w pt acc e = rw e refl

  -- Two sessions that pass the gate before either sends.
  pub record Overshot (a1 a2 : Text) (w w' : Common c login) (s1' s2' : Session j) : Type 0 where
    pub both : (s1'.pc ≡ reading a1) × (s2'.pc ≡ reading a2)
    pub too_many : votes_of w'.shared ≡ w.shared.votes.target_count + 1
    pub same_target : w'.shared.votes ≡ w.shared.votes
    pub open_gate : need_wait_vote c login w'.shared ≡ false

  -- When one vote is missing and two sessions on phones that do not vote are before the gate, a
  -- schedule in which both ask `need_wait_vote` before either sets its status lets both vote: the votes
  -- that succeeded and those that go on are then one more than the target, and the gate, which tests
  -- for equality, is open.
  pub run-Overshot :
      (s1 s2 : Session j) (pt1 pt2 : j.Ptree) (a1 a2 : Text) (w : Common c login)
      → votes_of w.shared + 1 ≡ w.shared.votes.target_count
      → w.shared.votes.target_count + 1 < 2 ^ 32
      → IsLive w.shared.devices.db
      → (length s1.ip ≤ 500) × (length s2.ip ≤ 500)
      → s1.ip ≢ s2.ip
      → get_status c s1.ip w.shared.devices ≢ device_status_wx_voting
      → get_status c s2.ip w.shared.devices ≢ device_status_wx_voting
      → (s1' : Session j) × (s2' : Session j) × (w' : Common c login) × (run b c login j alternating
            (record { sessions = at_gate pt1 a1 s1 ∷ at_gate pt2 a2 s2 ∷ []; common = w })
          ≡ some (returns (record { sessions = s1' ∷ s2' ∷ []; common = w' })))
        × Overshot a1 a2 w w' s1' s2'
  unfolding run
  run-Overshot s1 s2 pt1 pt2 a1 a2 w one_left small live short apart free1 free2 =
      let (d1, v1) = starts_to_vote c login s1.ip w.shared.devices live short.0 free1 in
      let still_free : get_status c s2.ip d1 ≢ device_status_wx_voting =
        λ e. ground (arith, v1.statuses s2.ip, text_eq_iff s1.ip s2.ip, free2) in
      let (d2, v2) = starts_to_vote c login s2.ip d1 v1.live short.1 still_free in
      let wait : need_wait_vote c login w.shared ≡ false =
        need_wait_vote_lem w.shared (omega arith) ∙ ground arith in
      let (s1', sent1, at1) = send-vote b c login j s1 w pt1 a1 d1 v1.set in
      let (s2', sent2, at2) =
        send-vote b c login j s2 (with_devices b c login j d1 w) pt2 a2 d2 v2.set in
      (
        s1',
        s2',
        with_devices b c login j d2 w,
        run-first b c login j (runs true) ((1, runs true) ∷ alternate []) (at_gate pt1 a1 s1) _
              (at_gate pt2 a2 s2 ∷ []) w w (gate-open s1 w pt1 a1 wait)
            ∙ run-second b c login j (runs true) (alternate []) (past_gate pt1 a1 s1)
                (at_gate pt2 a2 s2) _ [] w w (gate-open s2 w pt2 a2 wait)
            ∙ run-first b c login j (runs true) ((1, runs true) ∷ []) (past_gate pt1 a1 s1) s1'
                (past_gate pt2 a2 s2 ∷ []) w (with_devices b c login j d1 w) sent1
            ∙ run-second b c login j (runs true) [] s1' (past_gate pt2 a2 s2) s2' []
                (with_devices b c login j d1 w) (with_devices b c login j d2 w) sent2,
        record {
          both = (at1, at2);
          too_many = omega (arith, v1.one_more, v2.one_more);
          same_target = refl;
          open_gate =
              need_wait_vote_lem (with_devices b c login j d2 w).shared
                (omega (arith, v1.one_more, v2.one_more))
              ∙ ground (arith, v1.one_more, v2.one_more);
        },
      )

  gate-closed :
      (s : Session j) (w : Common c login) (pt : j.Ptree) (acc : Text)
      → need_wait_vote c login w.shared ≡ true
      → step b c login j (runs true) (at_gate pt acc s) w
        ≡ some (returns (record (at_gate pt acc s) { pc = asking acc }, w))
  unfolding step
  gate-closed s w pt acc e = rw e refl

  -- The first session votes, and the second one waits for it.
  pub record Held (a1 a2 : Text) (w w' : Common c login) (s1' s2' : Session j) : Type 0 where
    pub votes_one : s1'.pc ≡ reading a1
    pub waits : s2'.pc ≡ asking a2
    pub enough : votes_of w'.shared ≡ w.shared.votes.target_count
    pub same_target : w'.shared.votes ≡ w.shared.votes
    pub closed_gate : need_wait_vote c login w'.shared ≡ true

  -- When one vote is missing and two sessions are before the gate, the first on a phone that does not
  -- vote, a schedule in which the first asks `need_wait_vote` and sets its status before the second
  -- asks lets only the first vote: the votes that succeeded and those that go on are then the target,
  -- the gate is closed, and the second session waits.
  pub run-Held :
      (s1 s2 : Session j) (pt1 pt2 : j.Ptree) (a1 a2 : Text) (w : Common c login)
      → votes_of w.shared + 1 ≡ w.shared.votes.target_count
      → w.shared.votes.target_count < 2 ^ 32
      → IsLive w.shared.devices.db
      → length s1.ip ≤ 500
      → get_status c s1.ip w.shared.devices ≢ device_status_wx_voting
      → (s1' : Session j) × (s2' : Session j) × (w' : Common c login) × (run b c login j one_by_one
            (record { sessions = at_gate pt1 a1 s1 ∷ at_gate pt2 a2 s2 ∷ []; common = w })
          ≡ some (returns (record { sessions = s1' ∷ s2' ∷ []; common = w' })))
        × Held a1 a2 w w' s1' s2'
  unfolding run
  run-Held s1 s2 pt1 pt2 a1 a2 w one_left small live short free =
      let (d1, v1) = starts_to_vote c login s1.ip w.shared.devices live short free in
      let wait : need_wait_vote c login w.shared ≡ false =
        need_wait_vote_lem w.shared (omega arith) ∙ ground arith in
      let closed : need_wait_vote c login (with_devices b c login j d1 w).shared ≡ true =
        need_wait_vote_lem (with_devices b c login j d1 w).shared (omega (arith, v1.one_more))
        ∙ ground (arith, v1.one_more) in
      let (s1', sent1, at1) = send-vote b c login j s1 w pt1 a1 d1 v1.set in
      (
        s1',
        record (at_gate pt2 a2 s2) { pc = asking a2 },
        with_devices b c login j d1 w,
        run-first b c login j (runs true) ((0, runs true) ∷ (1, runs true) ∷ []) (at_gate pt1 a1 s1)
              _ (at_gate pt2 a2 s2 ∷ []) w w (gate-open s1 w pt1 a1 wait)
            ∙ run-first b c login j (runs true) ((1, runs true) ∷ []) (past_gate pt1 a1 s1) s1'
                (at_gate pt2 a2 s2 ∷ []) w (with_devices b c login j d1 w) sent1
            ∙ run-second b c login j (runs true) [] s1' (at_gate pt2 a2 s2) _ []
                (with_devices b c login j d1 w) (with_devices b c login j d1 w)
                (gate-closed s2 (with_devices b c login j d1 w) pt2 a2 closed),
        record {
          votes_one = at1;
          waits = refl;
          enough = omega (arith, v1.one_more);
          same_target = refl;
          closed_gate = closed;
        },
      )
