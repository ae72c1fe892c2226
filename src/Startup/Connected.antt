-- ===== src/Startup/Connected.antt =====
-- The initialisations of `main` (src/mpsp/main.cpp): the databases of the managers afterwards.
use schedule_center.Base.{ℕ, Bool, true, false, List, [], Option, none, some, ◌≡◌, refl}
use schedule_center.Boost.{Boost}
use schedule_center.Json.{Json, TasksMgr}
use schedule_center.Mysql.{Connector, Login, Outcome, returned, thrown}
use schedule_center.Mysql.Live.{IsLive}
use schedule_center.Config.{login_of}
use schedule_center.Devices
use schedule_center.Devices.{DeviceMgr}
use schedule_center.Devices.Loading.{init-offline}
use schedule_center.Accounts.{AccountMgr}
use schedule_center.Accounts.Load
use schedule_center.Accounts.Live.{init-live}
use schedule_center.Startup.{
  Queues, Start, Inits, ready, and_then, init_tasks, init_managers, init_all,
}

module _ (q : Queues) (b : Boost) (c : Connector) (j : Json) (tm : TasksMgr)
    (fresh : List ℕ → ℕ) where
  -- If the initialisations give true, the databases of both managers are connected.
  abbrev pub AllLive : Option (Inits q b c j tm fresh) → Type 0
  AllLive (some (ready login devices accounts)) = IsLive devices.db × IsLive accounts.db
  AllLive _ = Unit

  and_then-AllLive :
      {M : Type 0} (o : Option (Outcome Bool × M)) (rest : M → Option (Inits q b c j tm fresh))
      → ((m : M) → o ≡ some (returned true, m) → AllLive (rest m))
      → AllLive (and_then q b c j tm fresh o rest)
  and_then-AllLive none rest h = tt
  and_then-AllLive (some (thrown, _)) rest h = tt
  and_then-AllLive (some (returned false, _)) rest h = tt
  and_then-AllLive (some (returned true, m)) rest h = h m refl

  init_tasks-AllLive :
      (done : Bool) (login : Login) (devices : DeviceMgr c) (accounts : AccountMgr c)
      → IsLive devices.db
      → IsLive accounts.db
      → AllLive (init_tasks q b c j tm fresh done login devices accounts)
  init_tasks-AllLive true login devices accounts d a = (d, a)
  init_tasks-AllLive false login devices accounts d a = tt

  init_managers-AllLive :
      (login : Outcome Login) (t : Start q b c j tm fresh)
      → t.devices.devices_pro ≡ []
      → AllLive (init_managers q b c j tm fresh login t)
  init_managers-AllLive thrown t none_yet = tt
  init_managers-AllLive (returned login) t none_yet =
      and_then-AllLive (Devices.init c login t.devices) _ λ devices d.
        and_then-AllLive (Load.init c login t.accounts) _ λ accounts a.
          init_tasks-AllLive t.tasks login devices accounts
            (init-offline login t.devices devices none_yet d).0
            (init-live login t.accounts accounts a)

  pub init_all-AllLive :
      (r : Bool × j.Ptree) (t : Start q b c j tm fresh)
      → t.devices.devices_pro ≡ []
      → AllLive (init_all q b c j tm fresh r t)
  init_all-AllLive (false, pt) t none_yet = tt
  init_all-AllLive (true, pt) t none_yet = init_managers-AllLive (login_of j pt) t none_yet
