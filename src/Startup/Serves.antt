-- ===== src/Startup/Serves.antt =====
-- A start of the program whose initialisations succeed (src/mpsp/main.cpp), with the schedules of
-- the loop.
use schedule_center.Base.{
  ℕ, ◌≤◌, Bool, true, false, List, [], ◌∷◌, Option, some, ◌≡◌, refl, ap, ◌∙◌, subst, All, length,
  if◌then◌else◌, ◌>>=◌, arith,
}
use schedule_center.Base.Text.{Text}
use schedule_center.Base.Map.{contains}
use schedule_center.Boost.{Boost}
use schedule_center.Json.{Json, TasksMgr}
use schedule_center.Mysql.{Connector, Login, returned, thrown}
use schedule_center.Mysql.Live.{IsLive}
use schedule_center.Config
use schedule_center.Config.{login_of}
use schedule_center.Devices.{DeviceMgr}
use schedule_center.Accounts.{AccountMgr}
use schedule_center.Phones.Lists.{lookup}
use schedule_center.Protocol.{phone_port, schedule_port}
use schedule_center.TaskProcessor.{start, push_task}
use schedule_center.Server.{Moment, Server, construct, prepare}
use schedule_center.Server.Accept.{IsFresh}
use schedule_center.Server.Loop.{Turn, runs_posted, has_signal, run_loop, IsUsual}
use schedule_center.Server.Loop.Ready.{Ready}
use schedule_center.Server.Loop.Run.{EndedBy, opened, run_loop-prepare}
use schedule_center.Startup.Connected.{AllLive, init_all-AllLive}
use schedule_center.Startup.{
  Queues, Start, Ending, serves, exits, Inits, ready, is_running, init_all, idle_server, after_run,
  serve, after_init, after_create, main,
}

module _ (q : Queues) (b : Boost) (c : Connector) (j : Json) (tm : TasksMgr)
    (fresh : List ℕ → ℕ) where
  -- The names of the accounts fit the query of `set_everyday_task`.
  abbrev pub ShortNames : AccountMgr c → Type 0
  ShortNames accounts = (acc : Text) → contains acc accounts.accounts_pro ≡ true → length acc ≤ 500

  -- What `main` has come to after a schedule.
  abbrev pub Came : List Turn → q.State → Ending × q.State
  Came turns s = if has_signal turns then (exits 0, q.remove s) else (serves, s)

  module _ (login : Login) (devices : DeviceMgr c) (accounts : AccountMgr c) where
    abbrev idle : Server c login j fresh
    idle = idle_server q b c j tm fresh login devices accounts

    idle-Ready :
        IsLive devices.db
        → IsLive accounts.db
        → ShortNames accounts
        → Ready c login j fresh (opened c login j fresh idle)
    unfolding idle_server lookup
    idle-Ready d a short = record {
      going = refl;
      open_acceptors = (refl, refl);
      phones_ok = record { open_all = tt; distinct = tt; live = d };
      one_client = omega arith;
      short_phones = λ ip p e. ground arith;
      accounts_live = a;
      short_names = short;
    }

    prepare-listening :
        (listens : ℕ → Bool) (s : Server c login j fresh)
        → listens phone_port ≡ true
        → listens schedule_port ≡ true
        → prepare c login j fresh listens s
          ≡ returned (record (opened c login j fresh s) { processor = push_task start s.processor })
    unfolding prepare construct
    prepare-listening listens s phones clients =
        ap
          (λ (b1 : Bool).
            elim (if b1
              then if listens schedule_port then returned (opened c login j fresh s) else thrown
              else thrown) [
                | thrown ↦ thrown
                | returned s' ↦ returned (record s' { processor = push_task start s'.processor })
              ])
          phones
        ∙ ap
            (λ (b2 : Bool). elim (if b2 then returned (opened c login j fresh s) else thrown) [
              | thrown ↦ thrown
              | returned s' ↦ returned (record s' { processor = push_task start s'.processor })
            ])
            clients

    EndedBy→stopped :
        (signal : Bool) (s : Server c login j fresh)
        → EndedBy c login j fresh signal s
        → s.stopped ≡ signal
    EndedBy→stopped true s over = over.ended.stops
    EndedBy→stopped false s g = g.going

    -- A server that is made and whose loop runs.
    serve-Came :
        (t : Start q b c j tm fresh) (mom : Moment) (turns : List Turn) (s : q.State)
        → IsFresh c login j fresh
        → IsLive devices.db
        → IsLive accounts.db
        → ShortNames accounts
        → t.listens phone_port ≡ true
        → t.listens schedule_port ≡ true
        → t.turns ≡ runs_posted mom ∷ turns
        → All (IsUsual j) turns
        → serve q b c j tm fresh login (prepare c login j fresh t.listens idle) t s
          ≡ some (Came turns s)
    unfolding idle_server
    serve-Came t mom turns s new d a short phones clients runs usual =
        let s1 : Server c login j fresh = record (opened c login j fresh idle) {
          processor = push_task start idle.processor;
        } in
        let made = prepare-listening t.listens idle phones clients in
        let (s', st', run, h) =
          run_loop-prepare c login j fresh b tm t.listens mom turns idle s1 t.task_state new
            (idle-Ready d a short) refl made usual in
        ap (λ o. serve q b c j tm fresh login o t s) made
        ∙ ap
            (λ l.
              after_run q b c j tm fresh login (run_loop b c login j tm fresh l s1 t.task_state) s)
            runs
        ∙ ap (λ o. after_run q b c j tm fresh login o s) run
        ∙ ap (λ (stop : Bool). some (if stop then (exits 0, q.remove s) else (serves, s)))
            (EndedBy→stopped (has_signal turns) s' h)

  -- A start of the program that makes the message queue, whose initialisations begin without a phone
  -- in memory and give true, with names of accounts of at most 500 bytes, and which can listen at
  -- both ports, has no undefined step and no exception that leaves the loop, if `new` gives fresh
  -- addresses and the schedule has no phone that resets its connection, no answer of a phone that is
  -- signalled to the sessions, only framed messages of the client that do not parse, lack a member or
  -- have integers as command and id, and only replies that can be written: if a signal is in the schedule, `main` returns 0 and has removed the
  -- queue; else the loop still runs, and the queue is there.
  pub main-Came :
      (t : Start q b c j tm fresh) (s : q.State) (login : Login) (devices : DeviceMgr c)
      (accounts : AccountMgr c) (mom : Moment) (turns : List Turn)
      → IsFresh c login j fresh
      → (q.create s).0 ≡ true
      → t.devices.devices_pro ≡ []
      → init_all q b c j tm fresh (Config.init j t.file t.empty_tree) t
        ≡ some (ready login devices accounts)
      → ShortNames accounts
      → t.listens phone_port ≡ true
      → t.listens schedule_port ≡ true
      → t.turns ≡ runs_posted mom ∷ turns
      → All (IsUsual j) turns
      → main q b c j tm fresh t s ≡ some (Came turns (q.create s).1)
  unfolding main is_running
  main-Came t s login devices accounts mom turns new made none_yet inits short phones clients runs
        usual =
      let (d, a) =
        subst (AllLive q b c j tm fresh) inits
          (init_all-AllLive q b c j tm fresh (Config.init j t.file t.empty_tree) t none_yet) in
      ap
        (λ (x : Bool).
          after_create q b c j tm fresh (elim x [ true ↦ false | false ↦ true ], (q.create s).1) t)
        made
      ∙ ap
          (λ (o : Option (Inits q b c j tm fresh)).
            o >>= λ r. after_init q b c j tm fresh r t (q.create s).1)
          inits
      ∙ serve-Came login devices accounts t mom turns (q.create s).1 new d a short phones clients
          runs usual
