-- ===== src/Accounts/Data.antt =====
-- WX_ACCOUNT_PRO (inc/wx/wx_account_mgr.hpp), the queries of wx_account_mgr, and its rows.
use schedule_center.Base.{ℕ, List, [], ◌∷◌, ◌++◌}
use schedule_center.Base.Text.{Text, codes, c_str, show_int}
use schedule_center.Base.Map.{Map, insert}
use schedule_center.Mysql.{Outcome, returned, thrown, Row}

abbrev pub wx_account_status_voted : ℕ
wx_account_status_voted = 1

abbrev pub wx_account_status_not_vote : ℕ
wx_account_status_not_vote = 2

abbrev pub wx_account_dailytask_not_finished : ℕ
wx_account_dailytask_not_finished = 0

abbrev pub wx_account_dailytask_finished : ℕ
wx_account_dailytask_finished = 1

abbrev pub wx_account_status_normal : ℕ
wx_account_status_normal = 0

abbrev pub wx_account_status_abnormal : ℕ
wx_account_status_abnormal = 1

-- The set `voted_url` is a map into the unit type.
pub record AccountPro : Type 0 where
  pub password : Text
  pub nickname : Text
  pub imei : Text
  pub imsi : Text
  pub wxh : Text
  pub everyday_task_completed : ℕ
  pub status : ℕ
  pub voted_url : Map (Unit {0})

-- What `accounts_pro[acc]` makes for a new key.
abbrev pub zero_account : AccountPro
zero_account = record {
  password = [];
  nickname = [];
  imei = [];
  imsi = [];
  wxh = [];
  everyday_task_completed = 0;
  status = 0;
  voted_url = [];
}

unfoldable pub set_vote_status_sql : Text → Text → Text
set_vote_status_sql account url =
    codes "insert into wx_vote_url_status set acc = '"
    ++ (c_str account ++ (codes "' ,url = '" ++ (c_str url ++ codes "';")))

unfoldable pub set_acc_status_sql : Text → ℕ → Text
set_acc_status_sql account status =
    codes "update `wx_accounts_info` set `status` = '"
    ++ (show_int status ++ (codes "' where `acc` = '" ++ (c_str account ++ codes "';")))

unfoldable pub set_everyday_task_sql : Text → ℕ → Text
set_everyday_task_sql account b_done =
    codes "update `wx_accounts_info` set `dailytask` = '"
    ++ (show_int b_done ++ (codes "' where `acc` = '" ++ (c_str account ++ codes "';")))

infixl 5 ◌>>=◌
abbrev pub ◌>>=◌ : {A B : Type 0} → Outcome A → (A → Outcome B) → Outcome B
returned a >>= f = f a
thrown >>= f = thrown

-- A row of `wx_accounts_info`: the account's name and its properties, with no url yet.
unfoldable pub read_account : Row → Outcome (Text × AccountPro)
read_account row = do
  imei ← row.get_string (codes "imei")
  imsi ← row.get_string (codes "imsi")
  nick ← row.get_string (codes "nick")
  passwd ← row.get_string (codes "passwd")
  wxh ← row.get_string (codes "wxh")
  dailytask ← row.get_int (codes "dailytask")
  status ← row.get_int (codes "status")
  acc ← row.get_string (codes "acc")
  returned (
    c_str acc,
    record {
      password = c_str passwd;
      nickname = c_str nick;
      imei = c_str imei;
      imsi = c_str imsi;
      wxh = c_str wxh;
      everyday_task_completed = dailytask;
      status = status;
      voted_url = [];
    },
  )

-- The rows of `wx_vote_url_status` for one account.
unfoldable pub read_urls : List (Outcome Row) → Map (Unit {0}) → Outcome (Map (Unit {0}))
read_urls [] urls = returned urls
read_urls (row ∷ rows) urls = do
  r ← row
  url ← r.get_string (codes "url")
  read_urls rows (insert (c_str url) tt urls)
