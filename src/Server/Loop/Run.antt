-- ===== src/Server/Loop/Run.antt =====
-- Every schedule of the loop from the start of the server on (src/mpsp/main.cpp: main;
-- inc/public/task_processor.hpp: start).
use schedule_center.Base.{
  ℕ, Bool, true, false, List, [], ◌∷◌, ◌++◌, Option, none, some, ◌≡◌, refl, sym, ap, ◌∙◌, All,
  All-map, if◌then◌else◌, ◌||◌,
}
use schedule_center.Boost.{Boost}
use schedule_center.Json.{Json, TasksMgr}
use schedule_center.Mysql.{Connector, Login, Outcome, returned, thrown}
use schedule_center.Phones.StopAll.{AllShort}
use schedule_center.Sessions.{returns, escapes}
use schedule_center.TaskProcessor.{start, push_task, task_wrapped}
use schedule_center.Server.{Moment, Server, construct, run_first, start_main, run_posted, prepare}
use schedule_center.Server.Accept.{IsFresh}
use schedule_center.Server.Connects.{handle-Serving}
use schedule_center.Server.Begin.{Constructed, construct-Constructed}
use schedule_center.Server.Stop.{handle_stop-IsStopped}
use schedule_center.Server.Loop.{
  Turn, is_signal, has_signal, accepts, runs_posted, ends_timer, reads_phone, resets_phone,
  reads_client, signalled, nth, IsUsual, Turned, keeps_tasks, take_turn, run_loop, Going, Over,
}
use schedule_center.Server.Loop.Phone.{DistinctPeers-Serves, reads-Going}
use schedule_center.Server.Loop.Client.{read_client-Going}
use schedule_center.Server.Loop.Ready.{Ready, Ready-processor, start_main-Going}
use schedule_center.Server.Loop.Task.{fire-Goes, run_posted-Goes}

module _ (c : Connector) (login : Login) (j : Json) (fresh : List ℕ → ℕ) where
  -- A signal has ended the server, or else it goes on.
  abbrev pub EndedBy : Bool → Server c login j fresh → Type 0
  EndedBy true s = Over c login j fresh s
  EndedBy false s = Going c login j fresh s

  -- The server with both acceptors open.
  abbrev pub opened : Server c login j fresh → Server c login j fresh
  opened s = record s { phone_acceptor = true; schedule_acceptor = true }

  prepared :
      (s s1 : Server c login j fresh) (o : Outcome (Server c login j fresh))
      → Constructed c login j fresh s o
      → (elim o [
        | thrown ↦ thrown
        | returned s' ↦ returned (record s' { processor = push_task start s'.processor })
      ])
        ≡ returned s1
      → s1 ≡ record (opened s) { processor = push_task start s.processor }
  prepared s s1 thrown k e = cc
  prepared s s1 (returned s') k e =
      sym (ap (λ o. elim o [ thrown ↦ s1 | returned x ↦ x ]) e)
      ∙ ap (λ (x : Server c login j fresh). record x { processor = push_task start x.processor }) k

  run_posted-start :
      (t : Moment) (s : Server c login j fresh)
      → s.processor.posted ≡ []
      → run_posted c login j fresh t (record s { processor = push_task start s.processor })
        ≡ some (
            start_main c login j fresh t.now
              (record s { processor = record s.processor { posted = [] } }))
  unfolding run_posted push_task task_wrapped
  run_posted-start t s empty =
      ap
        (λ l.
          run_first c login j fresh (l ++ start ∷ []) t
            (record s { processor = record s.processor { posted = l ++ start ∷ [] } }))
        empty

  Going-AllShort :
      (s : Server c login j fresh)
      → Going c login j fresh s
      → AllShort s.common.store s.common.connections
  Going-AllShort s g =
      All-map _ _ (λ p own. g.short_phones _ p own) s.common.connections
        (DistinctPeers-Serves s.common.store s.common.connections g.serving.phones_ok.distinct)

  module _ (b : Boost) (tm : TasksMgr) where
    -- A run that returns, with a server that a signal has ended or that goes on.
    abbrev pub RunsOn : Bool → Turned b c login j tm fresh → Type 0
    RunsOn signal o =
        (s' : Server c login j fresh) × (st' : tm.State) × (o ≡ some (returns (s', st')))
        × EndedBy signal s'

    tasks_kept :
        (signal : Bool) (o : Option (Server c login j fresh)) (s' : Server c login j fresh)
        (st : tm.State)
        → o ≡ some s'
        → EndedBy signal s'
        → RunsOn signal (keeps_tasks b c login j tm fresh st o)
    tasks_kept signal o s' st run h = (s', st, ap (keeps_tasks b c login j tm fresh st) run, h)

    take_turn-RunsOn :
        (x : Turn) (s : Server c login j fresh) (st : tm.State)
        → IsFresh c login j fresh
        → IsUsual j x
        → Going c login j fresh s
        → RunsOn (is_signal x) (take_turn b c login j tm fresh x s st)
    take_turn-RunsOn (accepts e) s st new usual g =
        let (s', run, serving, k) = handle-Serving c login j fresh e s new usual g.serving in
        tasks_kept false _ s' st run (record {
          going = k.stopped ∙ g.going;
          serving = serving;
          short_phones = k.short_phones g.short_phones;
          accounts_live = rw k.accounts g.accounts_live;
          short_names = rw k.accounts g.short_names;
        })
    take_turn-RunsOn (runs_posted t) s st new usual g =
        let (s', run, g') = run_posted-Goes c login j fresh t s new g in
        tasks_kept false _ s' st run g'
    take_turn-RunsOn (ends_timer n e t) s st new usual g =
        let (s', run, g') = fire-Goes c login j fresh n e t s new g in
        tasks_kept false _ s' st run g'
    take_turn-RunsOn (reads_phone n e buffer) s st new usual g =
        let (s', run, g') =
          reads-Going b c login j fresh (nth n s.common.connections) n e buffer s refl usual g in
        tasks_kept false _ s' st run g'
    take_turn-RunsOn (resets_phone n) s st new usual g = absurd usual
    take_turn-RunsOn (reads_client n e buffer wrote) s st new usual g =
        let (s', st', run, g') =
          read_client-Going b c login j tm fresh (nth n s.sches.connections) e buffer wrote s st
            usual g in
        (s', st', run, g')
    take_turn-RunsOn signalled s st new usual g =
        let (s', run, ended) =
          handle_stop-IsStopped c login j fresh s g.serving.phones_ok (Going-AllShort s g) in
        tasks_kept true _ s' st run (record { last = s; serving = g.serving; ended = ended })

    run_loop-stopped :
        (turns : List Turn) (s : Server c login j fresh) (st : tm.State)
        → s.stopped ≡ true
        → run_loop b c login j tm fresh turns s st ≡ some (returns (s, st))
    unfolding run_loop
    run_loop-stopped [] s st e = refl
    run_loop-stopped (x ∷ turns) s st e = rw e refl

    pub run_loop-going :
        (x : Turn) (turns : List Turn) (s s1 : Server c login j fresh) (st st1 : tm.State)
        → s.stopped ≡ false
        → take_turn b c login j tm fresh x s st ≡ some (returns (s1, st1))
        → run_loop b c login j tm fresh (x ∷ turns) s st
          ≡ run_loop b c login j tm fresh turns s1 st1
    unfolding run_loop
    run_loop-going x turns s s1 st st1 e run =
        let rest : Turned b c login j tm fresh → Turned b c login j tm fresh = λ o. elim o [
          | none ↦ none
          | some escapes ↦ some escapes
          | some (returns (s', st')) ↦ run_loop b c login j tm fresh turns s' st'
        ] in
        ap
          (λ (stop : Bool).
            if stop then some (returns (s, st)) else rest (take_turn b c login j tm fresh x s st))
          e
        ∙ ap rest run

    run_loop-RunsOn :
        (turns : List Turn) (signal : Bool) (s : Server c login j fresh) (st : tm.State)
        → IsFresh c login j fresh
        → All (IsUsual j) turns
        → EndedBy signal s
        → RunsOn (signal || has_signal turns) (run_loop b c login j tm fresh turns s st)
    unfolding run_loop has_signal
    run_loop-RunsOn turns true s st new usual over =
        (s, st, run_loop-stopped turns s st over.ended.stops, over)
    run_loop-RunsOn [] false s st new usual g = (s, st, refl, g)
    run_loop-RunsOn (x ∷ turns) false s st new usual g =
        let (s1, st1, first, h) = take_turn-RunsOn x s st new usual.0 g in
        let (s2, st2, rest, h2) = run_loop-RunsOn turns (is_signal x) s1 st1 new usual.1 h in
        (s2, st2, run_loop-going x turns s s1 st st1 g.going first ∙ rest, h2)

    -- From the start of the server on: if both ports can be listened at, `new` gives fresh
    -- addresses, both pools are well-formed, the pointers of the databases are live and the names
    -- of the phones and of the accounts are of at most 500 bytes, then after the posted `start` any
    -- schedule of accepts, of messages of phones that are no answers, of framed messages of the
    -- client that do not parse, lack a member or have integers as command and id, and whose reply
    -- can be written, of phones that leave without that their connection is reset, of clients that leave, of timers and tasks, whatever these throw,
    -- and of signals runs without an undefined step, and no exception leaves the loop. If there is
    -- a signal in the schedule, the first has in the end stopped the server while it served: no
    -- connection is left and no accept has an effect any more. If there is none, the server serves
    -- in the end, with both acceptors waiting with an object of their own and both pools
    -- well-formed.
    pub run_loop-prepare :
        (listens : ℕ → Bool) (t : Moment) (turns : List Turn) (s s1 : Server c login j fresh)
        (st : tm.State)
        → IsFresh c login j fresh
        → Ready c login j fresh (opened s)
        → s.processor.posted ≡ []
        → prepare c login j fresh listens s ≡ returned s1
        → All (IsUsual j) turns
        → RunsOn (has_signal turns) (run_loop b c login j tm fresh (runs_posted t ∷ turns) s1 st)
    unfolding prepare
    run_loop-prepare listens t turns s s1 st new ready empty e usual =
        let s2 : Server c login j fresh = record (opened s) {
          processor = record s.processor { posted = [] };
        } in
        let same =
          prepared s s1 (construct c login j fresh listens s)
            (construct-Constructed c login j fresh listens s) e in
        let (s', st', run, h) =
          run_loop-RunsOn turns false (start_main c login j fresh t.now s2) st new usual (
            start_main-Going c login j fresh t.now s2 new
              (Ready-processor c login j fresh _ (opened s) ready)) in
        (
          s',
          st',
          ap (λ s. run_loop b c login j tm fresh (runs_posted t ∷ turns) s st) same
              ∙ run_loop-going (runs_posted t) turns
                  (record (opened s) { processor = push_task start s.processor })
                  (start_main c login j fresh t.now s2) st st ready.going
                  (ap (keeps_tasks b c login j tm fresh st) (run_posted-start t (opened s) empty))
              ∙ run,
          h,
        )
