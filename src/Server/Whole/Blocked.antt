-- ===== src/Server/Whole/Blocked.antt =====
-- The worker that waits for a session that waits for its own vote (src/wx/wx_vote.cpp: do_task and
-- need_wait_vote; src/wx/wx_vote_session.cpp: on_connected).
use schedule_center.Base.{
  ℕ, zero, suc, ◌+◌, ◌^◌, ◌≤◌, ◌<◌, Bool, true, false, List, [], ◌∷◌, none, some, ◌≡◌, ◌≢◌, refl,
  ap, ◌∙◌, arith, if◌then◌else◌, ◌⊎◌, inl, inr, All, length,
}
use schedule_center.Base.Text.{Text}
use schedule_center.Boost.{Boost}
use schedule_center.Json.{Json, TasksInfo, TasksMgr}
use schedule_center.Mysql.{Connector, Login}
use schedule_center.Mysql.Live.{IsLive}
use schedule_center.Devices.{get_status, device_status_wx_voting}
use schedule_center.Accounts.{AccountMgr, get_idle_not_vote_account}
use schedule_center.Sessions.{returns, escapes, need_wait_vote, need_vote}
use schedule_center.Threads.{
  Input, runs, reads, expires, cancelled, taking, asking, Session, Common, with_accounts, step,
}
use schedule_center.Threads.Voters.{
  at_gate, past_gate, votes_of, need_wait_vote_lem, starts_to_vote, with_devices,
}
use schedule_center.Threads.Waiting.{need_vote-true, write-fails, takes-next}
use schedule_center.Threads.Running.{stepped, keep, step_nth}
use schedule_center.Server.{Server}
use schedule_center.Server.Whole.{
  joined, Move, handler, session, works, joining, World, Moved, with_system, move, run_all,
}

-- A step of a session or of the worker.
abbrev pub IsOwn : {j : Json} → Move j → Type 0
IsOwn (handler t) = ⊥
IsOwn _ = Unit

if_same : {A : Type 0} (t : Bool) (a : A) → (if t then a else a) ≡ a
if_same true a = refl
if_same false a = refl

module _ (b : Boost) (c : Connector) (login : Login) (j : Json) (tm : TasksMgr)
    (fresh : List ℕ → ℕ) where
  -- The worker waits for the only session.
  abbrev pub alone :
      Server c login j fresh
      → tm.State
      → Text
      → ℕ
      → j.Ptree
      → Session j
      → Common c login
      → World b c login j tm fresh
  alone sv st r id order x w = record {
    server = record sv { sessions = x ∷ []; common = w };
    tasks = st;
    result = r;
    working = joining id order 0 1;
  }

  none_there :
      (n : ℕ) (i : Input) (w : Common c login)
      → step_nth b c login j n i [] w ≡ some (returns (record { sessions = []; common = w }))
  unfolding step_nth
  none_there zero i w = refl
  none_there (suc n) i w = refl

  run_all-move :
      (m : Move j) (moves : List (Move j)) (y y' : World b c login j tm fresh)
      → move b c login j tm fresh m y ≡ some (returns y')
      → run_all b c login j tm fresh (m ∷ moves) y ≡ run_all b c login j tm fresh moves y'
  unfolding run_all
  run_all-move m moves y y' e =
      ap
        (λ (o : Moved b c login j tm fresh). elim o [
          | none ↦ none
          | some escapes ↦ some escapes
          | some (returns z) ↦ run_all b c login j tm fresh moves z
        ])
        e

  module _ (sv : Server c login j fresh) (st : tm.State) (r : Text) (id : ℕ) (order : j.Ptree) where
    move-step :
        (i : Input) (x x' : Session j) (w w' : Common c login)
        → step b c login j i x w ≡ some (returns (x', w'))
        → move b c login j tm fresh (session 0 i) (alone sv st r id order x w)
          ≡ some (returns (alone sv st r id order x' w'))
    unfolding step_nth
    move-step i x x' w w' e =
        ap
          (λ o.
            with_system b c login j tm fresh (alone sv st r id order x w)
              (stepped b c login j [] o))
          e

    module _ (s : Session j) (pt : j.Ptree) (acc : Text) (w : Common c login) where
      -- Before the gate, or asking whether a vote is needed.
      abbrev pub AtGate : Session j → Type 0
      AtGate x = (x ≡ at_gate pt acc s) ⊎ (x ≡ record (at_gate pt acc s) { pc = asking acc })

      step-AtGate :
          (i : Input) (x : Session j)
          → need_wait_vote c login w.shared ≡ true
          → need_vote w.shared.votes ≡ true
          → AtGate x
          → (x' : Session j) × (step b c login j i x w ≡ some (returns (x', w))) × AtGate x'
      unfolding step
      step-AtGate (runs ok) x wait vote (inl e) = (_, rw (e, wait) refl, inr refl)
      step-AtGate (runs ok) x wait vote (inr e) = (_, rw (e, vote) refl, inl refl)
      step-AtGate (reads ec buffer) x wait vote (inl e) = (_, rw e refl, inl refl)
      step-AtGate (reads ec buffer) x wait vote (inr e) = (_, rw e refl, inr refl)
      step-AtGate expires x wait vote (inl e) = (_, rw e refl, inl refl)
      step-AtGate expires x wait vote (inr e) = (_, rw e refl, inr refl)
      step-AtGate cancelled x wait vote (inl e) = (_, rw e refl, inl refl)
      step-AtGate cancelled x wait vote (inr e) = (_, rw e refl, inr refl)

      waits_on :
          (threads : ℕ) (ti : TasksInfo) (x : Session j)
          → AtGate x
          → move b c login j tm fresh (works threads ti) (alone sv st r id order x w)
            ≡ some (returns (alone sv st r id order x w))
      unfolding joined
      waits_on threads ti x (inl e) =
          rw e (ap some (if_same sv.worker (returns (alone sv st r id order (at_gate pt acc s) w))))
      waits_on threads ti x (inr e) = rw e (
          ap some (
            if_same sv.worker
              (returns (alone sv st r id order (record (at_gate pt acc s) { pc = asking acc }) w))))

      other_position :
          (n : ℕ) (i : Input) (x : Session j)
          → move b c login j tm fresh (session (suc n) i) (alone sv st r id order x w)
            ≡ some (returns (alone sv st r id order x w))
      unfolding step_nth
      other_position n i x =
          ap
            (λ o.
              with_system b c login j tm fresh (alone sv st r id order x w) (keep b c login j x o))
            (none_there n i w)

      move-AtGate :
          (m : Move j) (x : Session j)
          → IsOwn m
          → need_wait_vote c login w.shared ≡ true
          → need_vote w.shared.votes ≡ true
          → AtGate x
          → (x' : Session j) × (move b c login j tm fresh m (alone sv st r id order x w)
              ≡ some (returns (alone sv st r id order x' w)))
            × AtGate x'
      move-AtGate (handler t) x own wait vote h = absurd own
      move-AtGate (session zero i) x own wait vote h =
          let (x', e, h') = step-AtGate i x wait vote h in (x', move-step i x x' w w e, h')
      move-AtGate (session (suc n) i) x own wait vote h = (x, other_position n i x, h)
      move-AtGate (works threads ti) x own wait vote h = (x, waits_on threads ti x h, h)

      run_all-AtGate :
          (moves : List (Move j)) (x : Session j)
          → All IsOwn moves
          → need_wait_vote c login w.shared ≡ true
          → need_vote w.shared.votes ≡ true
          → AtGate x
          → (x' : Session j) × (run_all b c login j tm fresh moves (alone sv st r id order x w)
              ≡ some (returns (alone sv st r id order x' w)))
            × AtGate x'
      unfolding run_all
      run_all-AtGate [] x own wait vote h = (x, refl, h)
      run_all-AtGate (m ∷ moves) x own wait vote h =
          let (x1, first, h1) = move-AtGate m x own.0 wait vote h in
          let (x2, rest, h2) = run_all-AtGate moves x1 own.1 wait vote h1 in
          (x2, run_all-move m moves _ _ first ∙ rest, h2)

    -- A session on a phone that does not vote, with an ip of at most 500 bytes, is past the gate with
    -- the only vote that is missing of fewer than 2 ^ 31, the pointers of device_mgr are live, its
    -- write fails, and there is another account to take; the worker is in `join_all` for this session
    -- alone. Its phone still counts as one that votes, so after its next two steps it waits for its
    -- own vote: whatever steps it and the worker make then, as long as no handler of the io_service
    -- runs, the worker stays in `join_all`, with the tasks as they were, so no later order is done.
    pub run_all-blocked :
        (s : Session j) (w : Common c login) (pt : j.Ptree) (acc next : Text) (a : AccountMgr c)
        (moves : List (Move j))
        → votes_of w.shared + 1 ≡ w.shared.votes.target_count
        → w.shared.votes.target_count < 2 ^ 31
        → IsLive w.shared.devices.db
        → length s.ip ≤ 500
        → get_status c s.ip w.shared.devices ≢ device_status_wx_voting
        → get_idle_not_vote_account c s.order.url w.shared.accounts ≡ (some next, a)
        → All IsOwn moves
        → (x' : Session j) × (w' : Common c login) × (run_all b c login j tm fresh
              (session 0 (runs false) ∷ session 0 (runs false) ∷ moves)
              (alone sv st r id order (past_gate pt acc s) w)
            ≡ some (returns (alone sv st r id order x' w')))
          × AtGate s pt next w' x'
    run_all-blocked s w pt acc next a moves one_left small live short free e own =
        let (d, v) = starts_to_vote c login s.ip w.shared.devices live short free in
        let w1 : Common c login = with_devices b c login j d w in
        let w2 : Common c login = with_accounts c login a w1 in
        let wait : need_wait_vote c login w2.shared ≡ true =
          need_wait_vote_lem w2.shared (omega (arith, v.one_more)) ∙ ground (arith, v.one_more) in
        let x1 : Session j = record (past_gate pt acc s) { pc = taking } in
        let (x', run, h) =
          run_all-AtGate s pt next w2 moves (at_gate pt next s) own wait
            (need_vote-true w.shared.votes (omega arith) small) (inl refl) in
        (
          x',
          w2,
          run_all-move (session 0 (runs false)) (session 0 (runs false) ∷ moves) _ _ (
                move-step (runs false) (past_gate pt acc s) x1 w w1
                  (write-fails b c login j s w pt acc d v.set))
              ∙ run_all-move (session 0 (runs false)) moves _ _ (
                  move-step (runs false) x1 (at_gate pt next s) w1 w2
                    (takes-next b c login j s w1 pt acc next a e))
              ∙ run,
          h,
        )
