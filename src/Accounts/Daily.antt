-- ===== src/Accounts/Daily.antt =====
-- Which account `get_idle_not_daily_task_account` hands out.
use schedule_center.Base.{
  Bool, true, false, ◌||◌, ◌&&◌, List, [], ◌∷◌, Option, none, some, ◌==◌, ◌≡◌, ◌≢◌, refl,
  if◌then◌else◌, arith, All, subst, sym, ap, ◌∙◌,
}
use schedule_center.Base.Text.{Text}
use schedule_center.Base.Map.{Map, find, contains, insert}
use schedule_center.Mysql.{Connector}
use schedule_center.Accounts.Data.{
  AccountPro, zero_account, wx_account_dailytask_finished, wx_account_status_abnormal,
}
use schedule_center.Accounts.{
  AccountMgr, account, pick, scan_daily, give_daily, get_idle_not_daily_task_account,
}
use schedule_center.Accounts.Idle.{Turn, Picks-Turn, pick-Picks}

-- The account is known, its daily task is not done, and it is not marked abnormal.
pub record NeedsDaily (m : Map AccountPro) (acc : Text) : Type 0 where
  pub pro : AccountPro
  pub known : find acc m ≡ some pro
  pub undone : pro.everyday_task_completed ≢ wx_account_dailytask_finished
  pub sound : pro.status ≢ wx_account_status_abnormal

-- Every idle account is in the map.
abbrev pub IdleKnown : Map AccountPro → List Text → Type 0
IdleKnown m = All (λ acc. contains acc m ≡ true)

module _ (m : Map AccountPro) where
  abbrev pub passes : Text → Bool
  passes acc =
      contains acc m
      && (if (account acc m).everyday_task_completed == wx_account_dailytask_finished
            || (account acc m).status == wx_account_status_abnormal
          then false
          else true)

  insert-known : (acc : Text) → contains acc m ≡ true → insert acc zero_account m ≡ m
  unfolding insert
  insert-known acc h = rw h refl

  -- Among known accounts nothing is entered.
  scan_daily-pick : (xs : List Text) → IdleKnown m xs → scan_daily xs m ≡ (m, pick passes xs)
  unfolding scan_daily pick
  scan_daily-pick [] h = refl
  scan_daily-pick (acc ∷ xs) h = rw (insert-known acc h.0, scan_daily-pick xs h.1) (ground arith)

  known-of-passes : (acc : Text) → passes acc ≡ true → (p : AccountPro) × (find acc m ≡ some p)
  known-of-passes acc h = ground arith

  passes→NeedsDaily : (acc : Text) → passes acc ≡ true → NeedsDaily m acc
  passes→NeedsDaily acc h =
      let (p, e) = known-of-passes acc h in
      record { pro = p; known = e; undone = ground arith; sound = ground arith }

  passes-false : (acc : Text) → passes acc ≡ false → ¬ NeedsDaily m acc
  passes-false acc h v = ground (arith, v.known, v.undone, v.sound)

give_daily-same :
    {c : Connector} (m : AccountMgr c) (r : Option (Text × List Text))
    → give_daily c m (m.accounts_pro, r) ≡ elim r [
      | none ↦ (none, m)
      | some (acc, rest) ↦ (some acc, record m { idle_accounts = rest })
    ]
give_daily-same m none = refl
give_daily-same m (some (acc, rest)) = refl

pub hand_out-pick :
    {c : Connector} (m : AccountMgr c)
    → IdleKnown m.accounts_pro m.idle_accounts
    → get_idle_not_daily_task_account c m ≡ elim (pick (passes m.accounts_pro) m.idle_accounts) [
      | none ↦ (none, m)
      | some (acc, rest) ↦ (some acc, record m { idle_accounts = rest })
    ]
unfolding get_idle_not_daily_task_account
hand_out-pick {c} m h =
    ap (give_daily c m) (scan_daily-pick m.accounts_pro m.idle_accounts h)
    ∙ give_daily-same m (pick (passes m.accounts_pro) m.idle_accounts)

-- In one undisturbed call, if every idle account is known: the account that is handed out is the
-- first idle one whose daily task is not done and that is not abnormal, and it leaves the idle
-- list; if there is none the call gives none and changes nothing.
pub get_idle_not_daily_task_account_lem :
    {c : Connector} (m : AccountMgr c)
    → IdleKnown m.accounts_pro m.idle_accounts
    → Turn c (NeedsDaily m.accounts_pro) m (get_idle_not_daily_task_account c m)
get_idle_not_daily_task_account_lem {c} m h =
    subst (Turn c (NeedsDaily m.accounts_pro) m) (sym (hand_out-pick m h)) (
      Picks-Turn _ m _ (passes→NeedsDaily m.accounts_pro) (passes-false m.accounts_pro)
        (pick-Picks (passes m.accounts_pro) m.idle_accounts))
