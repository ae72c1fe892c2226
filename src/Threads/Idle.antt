-- ===== src/Threads/Idle.antt =====
-- How often an account stands in the idle list, across the calls that a session's thread makes.
use schedule_center.Base.{
  ℕ, ◌+◌, Bool, true, false, List, [], ◌∷◌, Option, none, some, ◌≡◌, refl, ap, arith, if◌then◌else◌,
  count_if, count_if-append,
}
use schedule_center.Base.Text.{Text, text_eq}
use schedule_center.Base.Map.{Map, insert}
use schedule_center.Mysql.{Connector}
use schedule_center.Accounts.Data.{AccountPro, zero_account}
use schedule_center.Accounts.{
  AccountMgr, scan_daily, give_daily, get_idle_not_vote_account, get_idle_not_daily_task_account,
}
use schedule_center.Accounts.Idle.{Turn, get_idle_not_vote_account_lem}

abbrev pub one_if : Bool → ℕ
one_if b = if b then 1 else 0

-- How often `x` stands in a list.
abbrev pub times : Text → List Text → ℕ
times x = count_if (text_eq x)

-- A call that hands an account out takes it from the idle list.
abbrev pub HandsOut : {c : Connector} → Text → AccountMgr c → Option Text × AccountMgr c → Type 0
HandsOut x m (none, m') = times x m'.idle_accounts ≡ times x m.idle_accounts
HandsOut x m (some acc, m') =
    times x m'.idle_accounts + one_if (text_eq x acc) ≡ times x m.idle_accounts

Turn-HandsOut :
    {c : Connector} (Fit : Text → Type 0) (x : Text) (m : AccountMgr c)
    (r : Option Text × AccountMgr c)
    → Turn c Fit m r
    → HandsOut x m r
Turn-HandsOut Fit x m (none, m') (_, same) = ap (λ (n : AccountMgr _). times x n.idle_accounts) same
Turn-HandsOut Fit x m (some acc, m') (before, after, e, same, _, _) = omega (
  arith,
  ap (times x) e,
  ap (λ (n : AccountMgr _). times x n.idle_accounts) same,
  count_if-append (text_eq x) before (acc ∷ after),
  count_if-append (text_eq x) before after,
)

pub get_idle_not_vote_account-HandsOut :
    {c : Connector} (x url : Text) (m : AccountMgr c)
    → HandsOut x m (get_idle_not_vote_account c url m)
get_idle_not_vote_account-HandsOut x url m =
    Turn-HandsOut _ x m _ (get_idle_not_vote_account_lem url m)

abbrev Scans : Text → List Text → Option (Text × List Text) → Type 0
Scans x xs none = Unit
Scans x xs (some (acc, rest)) = times x rest + one_if (text_eq x acc) ≡ times x xs

Scans-cons :
    (x acc : Text) (xs : List Text) (r : Option (Text × List Text))
    → Scans x xs r
    → Scans x (acc ∷ xs) (elim r [ none ↦ none | some (a, others) ↦ some (a, acc ∷ others) ])
Scans-cons x acc xs none h = tt
Scans-cons x acc xs (some (a, others)) h = omega arith

Scans-if :
    (b : Bool) (x : Text) (xs : List Text) (r r' : Map AccountPro × Option (Text × List Text))
    → Scans x xs r.1
    → Scans x xs r'.1
    → Scans x xs (if b then r else r').1
Scans-if true x xs r r' h k = h
Scans-if false x xs r r' h k = k

scan_daily-Scans : (x : Text) (xs : List Text) (m : Map AccountPro) → Scans x xs (scan_daily xs m).1
unfolding scan_daily
scan_daily-Scans x [] m = tt
scan_daily-Scans x (acc ∷ xs) m =
    Scans-if _ x (acc ∷ xs) _ (insert acc zero_account m, some (acc, xs))
      (Scans-cons x acc xs _ (scan_daily-Scans x xs (insert acc zero_account m))) (omega arith)

give_daily-HandsOut :
    {c : Connector} (x : Text) (m : AccountMgr c) (r : Map AccountPro × Option (Text × List Text))
    → Scans x m.idle_accounts r.1
    → HandsOut x m (give_daily c m r)
give_daily-HandsOut x m (accounts, none) h = refl
give_daily-HandsOut x m (accounts, some (acc, rest)) h = h

pub get_idle_not_daily_task_account-HandsOut :
    {c : Connector} (x : Text) (m : AccountMgr c)
    → HandsOut x m (get_idle_not_daily_task_account c m)
unfolding get_idle_not_daily_task_account
get_idle_not_daily_task_account-HandsOut x m =
    give_daily-HandsOut x m _ (scan_daily-Scans x m.idle_accounts m.accounts_pro)
