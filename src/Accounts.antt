-- ===== src/Accounts.antt =====
-- wx_account_mgr (inc/wx/wx_account_mgr.hpp, src/wx/wx_account_mgr.cpp): the accounts, and the list
-- of those that no session uses. A method is one step here. `none` is a run that C++ leaves
-- undefined: a call through a NULL pointer, or a write past the end of an array.
pub mod Data
pub mod Sql
pub mod Load
pub mod Idle
pub mod Update
pub mod Reset
pub mod Book
pub mod Daily
pub mod Race
pub mod Known
pub mod Loaded
pub mod Live
use schedule_center.Base.{
  ℕ, ◌+◌, Bool, true, false, ◌&&◌, ◌||◌, List, [], ◌∷◌, ◌++◌, Option, none, some, ◌==◌, is_some,
  if◌then◌else◌, ◌>>=◌, count_if,
}
use schedule_center.Base.Text.{Text, sprintf}
use schedule_center.Base.Map.{Map, find, contains, assign, replace, insert}
use schedule_center.Mysql.{Connector, Login, Db, execute_update}
use Sql.{init_sql_conn}
use Data.{
  AccountPro, zero_account, wx_account_status_voted, wx_account_status_not_vote,
  wx_account_dailytask_not_finished, wx_account_dailytask_finished, wx_account_status_normal,
  wx_account_status_abnormal, set_vote_status_sql, set_acc_status_sql, set_everyday_task_sql,
}

-- The first element that passes, and the list without it.
unfoldable pub pick : (Text → Bool) → List Text → Option (Text × List Text)
pick p [] = none
pick p (x ∷ xs) =
    if p x
    then some (x, xs)
    else elim (pick p xs) [ none ↦ none | some (a, rest) ↦ some (a, x ∷ rest) ]

abbrev pub account_or_zero : Option AccountPro → AccountPro
account_or_zero none = zero_account
account_or_zero (some p) = p

-- `accounts_pro[acc]`, read.
abbrev pub account : Text → Map AccountPro → AccountPro
account acc m = account_or_zero (find acc m)

-- `get_vote_status`
unfoldable pub vote_status : Text → Text → Map AccountPro → ℕ
vote_status acc url m = elim (find acc m) [
  | none ↦ wx_account_status_voted
  | some p ↦
      if contains url p.voted_url then wx_account_status_voted else wx_account_status_not_vote
]

-- The loop of `get_idle_not_daily_task_account`, which reads through `accounts_pro[*itor]` and so
-- enters an account that is missing.
unfoldable pub scan_daily : List Text → Map AccountPro → Map AccountPro × Option (Text × List Text)
scan_daily [] m = (m, none)
scan_daily (acc ∷ rest) m =
    let m' = insert acc zero_account m in
    let later = scan_daily rest m' in
    if (account acc m').everyday_task_completed == wx_account_dailytask_finished
      || (account acc m').status == wx_account_status_abnormal
    then (later.0, elim later.1 [ none ↦ none | some (a, others) ↦ some (a, acc ∷ others) ])
    else (m', some (acc, rest))

-- What the loop of `get_idle_not_vote_account` does not pass over. `||` spares an account that is
-- missing the read through `accounts_pro[*itor]`.
abbrev pub may_vote : Text → Map AccountPro → Text → Bool
may_vote url m acc =
    if vote_status acc url m == wx_account_status_voted
      || (account acc m).status == wx_account_status_abnormal
    then false
    else true

-- What `get_idle_not_vote_count` counts.
abbrev pub counts : Text → Map AccountPro → Text → Bool
counts url m acc =
    vote_status acc url m == wx_account_status_not_vote
    && (account acc m).status == wx_account_status_normal

module _ (c : Connector) where
  pub record AccountMgr : Type 0 where
    pub accounts_pro : Map AccountPro
    pub idle_accounts : List Text
    pub db : Db c

  -- The guarded update; its exceptions are caught and printed.
  abbrev pub update_row : Login → Text → AccountMgr → Option AccountMgr
  update_row login sql m = elim (execute_update c (init_sql_conn c login) sql m.db) [
    | none ↦ none
    | some (_, d) ↦ some (record m { db = d })
  ]

  -- The body that the three setters share: an unknown account is left alone, and else its
  -- properties are changed by `f` and `sql`, printed into `size` bytes, is executed.
  abbrev pub set_account :
      Login → Text → (AccountPro → AccountPro) → ℕ → Text → AccountMgr → Option AccountMgr
  set_account login acc f size sql m = elim (find acc m.accounts_pro) [
    | none ↦ some m
    | some p ↦ sprintf size sql >>= λ query.
        update_row login query (record m { accounts_pro = assign acc (f p) m.accounts_pro })
  ]

  unfoldable pub get_vote_status : Text → Text → AccountMgr → ℕ
  unfolding vote_status
  get_vote_status acc url m = vote_status acc url m.accounts_pro

  -- `status` is not read.
  unfoldable pub set_vote_status : Login → Text → Text → ℕ → AccountMgr → Option AccountMgr
  set_vote_status login acc url status =
      set_account login acc (λ p. record p { voted_url = insert url tt p.voted_url }) 6400
        (set_vote_status_sql acc url)

  unfoldable pub set_acc_status : Login → Text → ℕ → AccountMgr → Option AccountMgr
  set_acc_status login acc status =
      set_account login acc (λ p. record p { status = status }) 640 (set_acc_status_sql acc status)

  unfoldable pub set_everyday_task : Login → Text → ℕ → AccountMgr → Option AccountMgr
  set_everyday_task login acc b_done =
      set_account login acc (λ p. record p { everyday_task_completed = b_done }) 640
        (set_everyday_task_sql acc b_done)

  -- The loop of `reset_all_everyday_task` over the keys.
  unfoldable pub reset_each : Login → Map AccountPro → AccountMgr → Option AccountMgr
  unfolding set_everyday_task
  reset_each login [] m = some m
  reset_each login ((acc, _) ∷ rest) m =
      set_everyday_task login acc wx_account_dailytask_not_finished m >>= reset_each login rest

  unfoldable pub reset_all_everyday_task : Login → AccountMgr → Option AccountMgr
  unfolding reset_each
  reset_all_everyday_task login m = reset_each login m.accounts_pro m

  unfoldable pub get_accounts_pro_copy : AccountMgr → Map AccountPro
  get_accounts_pro_copy m = m.accounts_pro

  -- The account that it gives, if it returns true, and the manager. The code gives the read lock up
  -- before it reads the iterator and erases: this is a call in which no other thread comes between.
  -- Accounts.Race has the call by its steps.
  unfoldable pub get_idle_not_vote_account : Text → AccountMgr → Option Text × AccountMgr
  unfolding pick vote_status
  get_idle_not_vote_account url m = elim (pick (may_vote url m.accounts_pro) m.idle_accounts) [
    | none ↦ (none, m)
    | some (acc, rest) ↦ (some acc, record m { idle_accounts = rest })
  ]

  unfoldable pub get_idle_not_vote_count : Text → AccountMgr → ℕ
  unfolding vote_status
  get_idle_not_vote_count url m = count_if (counts url m.accounts_pro) m.idle_accounts

  -- The erasure and the result, after the loop.
  abbrev pub give_daily :
      AccountMgr → Map AccountPro × Option (Text × List Text) → Option Text × AccountMgr
  give_daily m (accounts, none) = (none, record m { accounts_pro = accounts })
  give_daily m (accounts, some (acc, rest)) =
      (some acc, record m { accounts_pro = accounts; idle_accounts = rest })

  -- As above, a call in which no other thread comes between the search and the erasure.
  unfoldable pub get_idle_not_daily_task_account : AccountMgr → Option Text × AccountMgr
  unfolding scan_daily
  get_idle_not_daily_task_account m = give_daily m (scan_daily m.idle_accounts m.accounts_pro)

  unfoldable pub set_idle_account : Text → AccountMgr → AccountMgr
  set_idle_account acc m = record m { idle_accounts = m.idle_accounts ++ acc ∷ [] }
