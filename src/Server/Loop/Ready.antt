-- ===== src/Server/Loop/Ready.antt =====
-- What the server needs before its start (src/common/main_task.cpp: start).
use schedule_center.Base.{ℕ, ◌≤◌, true, false, List, ◌≡◌, refl, length}
use schedule_center.Base.Text.{Text}
use schedule_center.Base.Map.{contains}
use schedule_center.Json.{Json}
use schedule_center.Mysql.{Connector, Login}
use schedule_center.Mysql.Live.{IsLive}
use schedule_center.Phones.Pool.{Ok}
use schedule_center.TaskProcessor.{start_others, TaskProcessor, run_after}
use schedule_center.Server.{Server, pool_of, start_phone_accept, start_schedule_accept, start_main}
use schedule_center.Server.Accept.{
  ShortPhones, IsFresh, start_phone_accept-Serving, start_phone_accept-Keeps,
}
use schedule_center.Server.Loop.{Going}

module _ (c : Connector) (login : Login) (j : Json) (fresh : List ℕ → ℕ) where
  -- What `main_task::start` needs: the acceptors are open, the pools are well-formed, and the accounts
  -- have what `reset_task` needs.
  pub record Ready (s : Server c login j fresh) : Type 0 where
    pub going : s.stopped ≡ false
    pub open_acceptors : (s.phone_acceptor ≡ true) × (s.schedule_acceptor ≡ true)
    pub phones_ok : Ok (pool_of c login j fresh s.common)
    pub one_client : length s.sches.connections ≤ 1
    pub short_phones : ShortPhones c login j fresh s
    pub accounts_live : IsLive s.common.shared.accounts.db
    pub short_names :
        (acc : Text) → contains acc s.common.shared.accounts.accounts_pro ≡ true → length acc ≤ 500

  pub Ready-processor :
      (t : TaskProcessor) (s : Server c login j fresh)
      → Ready s
      → Ready (record s { processor = t })
  Ready-processor t s r = record {
    going = r.going;
    open_acceptors = r.open_acceptors;
    phones_ok = r.phones_ok;
    one_client = r.one_client;
    short_phones = r.short_phones;
    accounts_live = r.accounts_live;
    short_names = r.short_names;
  }

  pub Going-Ready : (s : Server c login j fresh) → Going c login j fresh s → Ready s
  Going-Ready s g = record {
    going = g.going;
    open_acceptors = g.serving.open_acceptors;
    phones_ok = g.serving.phones_ok;
    one_client = g.serving.one_client;
    short_phones = g.short_phones;
    accounts_live = g.accounts_live;
    short_names = g.short_names;
  }

  pub start_main-Going :
      (now : ℕ) (s : Server c login j fresh)
      → IsFresh c login j fresh
      → Ready s
      → Going c login j fresh (start_main c login j fresh now s)
  unfolding start_main start_phone_accept start_schedule_accept
  start_main-Going now s new r =
      let s1 : Server c login j fresh = start_schedule_accept c login j fresh s in
      let s2 : Server c login j fresh = record s1 {
        processor = run_after now 20 start_others s1.processor;
      } in
      record {
        going = r.going;
        serving =
            start_phone_accept-Serving c login j fresh s2 new r.open_acceptors (_, refl) r.phones_ok
              r.one_client;
        short_phones =
            (start_phone_accept-Keeps c login j fresh s2 new).short_phones r.short_phones;
        accounts_live = r.accounts_live;
        short_names = r.short_names;
      }
