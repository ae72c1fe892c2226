-- ===== src/Accounts/Book.antt =====
-- What wx_account_mgr (src/wx/wx_account_mgr.cpp, inc/wx/wx_account_mgr.hpp) promises: a book of what is
-- known of each account and of who is idle, with no order of the accounts and no database.
pub mod Sound
pub mod Refines
use schedule_center.Base.{
  ℕ, ◌+◌, ◌≤◌, Bool, true, false, not, ◌&&◌, List, [], ◌∷◌, ◌++◌, Option, none, some, is_some, ◌==◌,
  ◌≡◌, if◌then◌else◌, length, All, modify,
}
use schedule_center.Base.Text.{Text, text_eq}
use schedule_center.Base.Map.{contains, insert, find}
use schedule_center.Accounts.Data.{
  AccountPro, wx_account_dailytask_finished, wx_account_status_abnormal,
}
use schedule_center.Mysql.{Connector}
use schedule_center.Accounts.{AccountMgr}
use schedule_center.Accounts.Reset.{reset}
use schedule_center.Accounts.Known.{
  Call, vote_turn, daily_turn, give_back, set_vote, set_status, set_daily, reset_daily,
}

pub record Book : Type 0 where
  pub account : Text → Option AccountPro
  pub idle : List Text

abbrev pub book_of : {c : Connector} → AccountMgr c → Book
book_of m = record { account = λ acc. find acc m.accounts_pro; idle = m.idle_accounts }

-- An account that may vote for the url, and one that needs its daily task.
abbrev pub votes : Text → Option AccountPro → Bool
votes url none = false
votes url (some p) = not (contains url p.voted_url) && not (p.status == wx_account_status_abnormal)

abbrev pub needs : Option AccountPro → Bool
needs none = false
needs (some p) =
    not (p.everyday_task_completed == wx_account_dailytask_finished)
    && not (p.status == wx_account_status_abnormal)

-- The list without its first member that passes.
abbrev pub without_first : (Text → Bool) → List Text → List Text
without_first p [] = []
without_first p (x ∷ xs) = if p x then xs else x ∷ without_first p xs

abbrev pub changed : Text → (AccountPro → AccountPro) → Book → Book
changed acc f k = record k {
  account = λ other. if text_eq acc other then modify f (k.account other) else k.account other;
}

-- What each method promises.
abbrev pub promise : Call → Book → Book
promise (vote_turn url) k = record k {
  idle = without_first (λ acc. votes url (k.account acc)) k.idle;
}
promise daily_turn k = record k { idle = without_first (λ acc. needs (k.account acc)) k.idle }
promise (give_back acc) k = record k { idle = k.idle ++ acc ∷ [] }
promise (set_vote acc url status) k =
    changed acc (λ p. record p { voted_url = insert url tt p.voted_url }) k
promise (set_status acc status) k = changed acc (λ p. record p { status = status }) k
promise (set_daily acc b_done) k =
    changed acc (λ p. record p { everyday_task_completed = b_done }) k
promise reset_daily k = record k { account = λ acc. modify reset (k.account acc) }

unfoldable pub promise_each : List Call → Book → Book
promise_each [] k = k
promise_each (call ∷ calls) k = promise_each calls (promise call k)

-- The names and urls fit their queries, and only known accounts are given back.
abbrev pub IsProper : Book → Call → Type 0
IsProper k (give_back acc) = is_some (k.account acc) ≡ true
IsProper k (set_vote acc url status) = length acc + length url ≤ 6000
IsProper k (set_status acc status) = length acc ≤ 500
IsProper k (set_daily acc b_done) = length acc ≤ 500
IsProper k _ = Unit

-- The idle accounts are known, and the names of all fit their query.
pub record IsSound (k : Book) : Type 0 where
  pub known : All (λ acc. is_some (k.account acc) ≡ true) k.idle
  pub short : (acc : Text) → is_some (k.account acc) ≡ true → length acc ≤ 500
