-- ===== src/Json.antt =====
-- What the program uses of code that the repository lacks: Boost's property trees with their JSON
-- parser, and tasks_mgr, whose header and source are not in the repository.
use schedule_center.Base.{ℕ, Bool, Option}
use schedule_center.Base.Text.{Text}

-- `boost::property_tree::ptree`.
pub record Json : Type 1 where
  pub Ptree : Type 0
  -- `none`: `json_parser_error`.
  pub read_json : Text → Option Ptree
  -- `find(key) != not_found()`
  pub has : Ptree → Text → Bool
  -- `get_child(key)`, where a dot in the key goes down the tree; `none`: `ptree_bad_path`.
  pub child : Ptree → Text → Option Ptree
  -- `get<int>` and `get<std::string>`; `none`: `ptree_bad_path` or `ptree_bad_data`.
  pub get_int : Ptree → Text → Option ℕ
  pub get_string : Ptree → Text → Option Text

-- TASKS_INFO, with the fields that the sources set and read.
pub record TasksInfo : Type 0 where
  pub id : ℕ
  pub description : Text
  pub status : ℕ

pub record TasksMgr : Type 1 where
  pub State : Type 0
  pub task_status_queuing : ℕ
  pub task_status_finished : ℕ
  pub add_task : TasksInfo → State → State
  -- `get_result(id, ret)`: what it puts in `ret`, which was empty.
  pub get_result : ℕ → State → Text × State
  pub set_result : ℕ → Text → State → State
  pub set_status : ℕ → ℕ → State → State
