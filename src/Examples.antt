-- ===== src/Examples.antt =====
-- Concrete runs of the modelled code: a small database and managers that hold a few entries.
pub mod Queue
pub mod Devices
pub mod Accounts
pub mod Book
pub mod Phones
pub mod Schedule
pub mod Sessions
pub mod Threads
pub mod Whole
pub mod Blocked
pub mod Server
pub mod Loop
pub mod Startup
pub mod Daily
pub mod Worker
use schedule_center.Base.{
  ℕ, zero, suc, Bool, true, false, List, [], ◌∷◌, Option, none, some, ◌≡◌, refl, arith, ap, length,
}
use schedule_center.Base.Text.{Text, codes, c_str}
use schedule_center.Mysql.{Outcome, returned, thrown, Row, Connector, Login, Db}

abbrev pub ip_a : Text
ip_a = codes "10.0.0.1"

abbrev pub ip_b : Text
ip_b = codes "10.0.0.2"

abbrev row : Row
row = record { get_string = λ _. returned ip_a; get_int = λ _. returned 0 }

-- A server that has lost every connection, takes new ones, and refuses every update. Its state
-- counts the connections. A table has one row.
abbrev pub server : Connector
server = record {
  World = ℕ;
  connect = λ _ _ _ w. (returned w, suc w);
  is_closed = λ _ w. (returned false, w);
  is_valid = λ _ w. (returned false, w);
  close = λ _ w. (returned tt, w);
  set_schema = λ _ _ w. (returned tt, w);
  create_statement = λ p w. (returned p, w);
  close_statement = λ _ w. (returned tt, w);
  execute = λ _ _ w. (thrown, w);
  execute_query = λ _ _ w. (returned (returned row ∷ []), w);
  close_result = λ w. (returned tt, w);
  query_with = λ _ _ _ w. (returned (returned row ∷ []), w);
}

abbrev pub login : Login
login = record { ip = ip_b; usr = codes "root"; pass = codes "x" }

abbrev pub live : Db server
live = record { con = some 0; stmt = some 0; world = 1 }

abbrev pub unset : Db server
unset = record { con = none; stmt = none; world = 0 }
