-- ===== src/Config.antt =====
-- config_mgr (src/common/config_mgr.cpp, inc/common/config_mgr.hpp): the values of the configuration
-- file.
pub mod Values
use schedule_center.Base.{ℕ, Bool, true, false, [], Option, none, some, if◌then◌else◌}
use schedule_center.Base.Text.{Text, codes}
use schedule_center.Json.{Json}
use schedule_center.Mysql.{Outcome, returned, thrown, Login}

module _ (j : Json) where
  -- `init`: whether the file was parsed, and `pt_`.
  unfoldable pub init : Option j.Ptree → j.Ptree → Bool × j.Ptree
  init none pt = (false, pt)
  init (some parsed) pt = (true, parsed)

  -- `pt1.get<std::string>(key)`; an exception of the tree is no `json_parser_error` and leaves.
  abbrev pub read_value : Option Text → Outcome Text
  read_value none = thrown
  read_value (some v) = returned v

  abbrev pub read_child : Option j.Ptree → Text → Outcome Text
  read_child none key = thrown
  read_child (some pt1) key =
      if j.has pt1 key then read_value (j.get_string pt1 key) else returned []

  unfoldable pub get_value : j.Ptree → Text → Text → Outcome Text
  get_value pt type_name key =
      if j.has pt type_name then read_child (j.child pt type_name) key else returned []

  -- The three values of `driver->connect`.
  abbrev pub all_three : Outcome Text → Outcome Text → Outcome Text → Outcome Login
  all_three (returned ip) (returned usr) (returned pass) =
      returned (record { ip = ip; usr = usr; pass = pass })
  all_three _ _ _ = thrown

  unfoldable pub login_of : j.Ptree → Outcome Login
  unfolding get_value
  login_of pt =
      all_three (get_value pt (codes "mysql") (codes "ip"))
        (get_value pt (codes "mysql") (codes "usr")) (get_value pt (codes "mysql") (codes "pass"))
