-- ===== src/Server/Begin.antt =====
-- The constructor of main_task (src/common/main_task.cpp).
use schedule_center.Base.{ℕ, Bool, true, false, List, ◌≡◌, refl, if◌then◌else◌}
use schedule_center.Json.{Json}
use schedule_center.Mysql.{Connector, Login, Outcome, returned, thrown}
use schedule_center.Protocol.{phone_port, schedule_port}
use schedule_center.Server.{Server, construct}

module _ (c : Connector) (login : Login) (j : Json) (fresh : List ℕ → ℕ) where
  -- After the constructor: both acceptors are open, and nothing else has changed.
  abbrev pub Constructed : Server c login j fresh → Outcome (Server c login j fresh) → Type 0
  Constructed s thrown = Unit
  Constructed s (returned s1) = s1 ≡ record s { phone_acceptor = true; schedule_acceptor = true }

  pub construct-Constructed :
      (listens : ℕ → Bool) (s : Server c login j fresh)
      → Constructed s (construct c login j fresh listens s)
  unfolding construct
  construct-Constructed listens s = both (listens phone_port) (listens schedule_port)
    where
      both :
          (a b : Bool)
          → Constructed s (
              if a
              then if b
                then returned (record s { phone_acceptor = true; schedule_acceptor = true })
                else thrown
              else thrown)
      both true true = refl
      both true false = tt
      both false b = tt
