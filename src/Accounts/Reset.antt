-- ===== src/Accounts/Reset.antt =====
-- wx_account_mgr::reset_all_everyday_task (src/wx/wx_account_mgr.cpp).
use schedule_center.Base.{
  true, ◌≤◌, is_some, [], ◌∷◌, Option, none, some, ◌≡◌, refl, if◌then◌else◌, arith, length, modify,
  All, ◌∙◌,
}
use schedule_center.Base.Text.{Text, text_eq, text_eq_refl}
use schedule_center.Base.Map.{Map, find, contains}
use schedule_center.Mysql.{Connector, Login}
use schedule_center.Mysql.Live.{IsLive}
use schedule_center.Accounts.Data.{AccountPro, wx_account_dailytask_not_finished}
use schedule_center.Accounts.{AccountMgr, reset_each, reset_all_everyday_task}
use schedule_center.Accounts.Update.{set_everyday_task-Changed}

-- An account with its daily task not finished.
abbrev pub reset : AccountPro → AccountPro
reset p = record p { everyday_task_completed = wx_account_dailytask_not_finished }

-- Every key fits its query.
abbrev pub ShortKeys : Map AccountPro → Type 0
ShortKeys = All (λ e. length e.0 ≤ 500)

pub ShortKeys-contains :
    (m : Map AccountPro) → ((acc : Text) → contains acc m ≡ true → length acc ≤ 500) → ShortKeys m
unfolding find
ShortKeys-contains [] h = tt
ShortKeys-contains ((acc, p) ∷ m) h =
    (h acc (rw (text_eq_refl acc) refl), ShortKeys-contains m λ other e. h other (ground arith))

pub is_some-modify :
    (f : AccountPro → AccountPro) (o : Option AccountPro) → is_some (modify f o) ≡ is_some o
is_some-modify f none = refl
is_some-modify f (some p) = refl

-- One round and then the rest, at one account.
twice :
    (acc : Text) (p : AccountPro) (keys : Map AccountPro) (j : Text) (o r s : Option AccountPro)
    → r ≡ (if text_eq acc j then modify reset o else o)
    → s ≡ (if contains j keys then modify reset r else r)
    → s ≡ (if contains j ((acc, p) ∷ keys) then modify reset o else o)
unfolding find
twice acc p keys j none r s e e' = ground arith
twice acc p keys j (some q) r s e e' = ground arith

everywhere :
    {r : Option AccountPro} (o : Option AccountPro)
    → r ≡ (if is_some o then modify reset o else o)
    → r ≡ modify reset o
everywhere none e = e
everywhere (some p) e = e

module _ {c : Connector} (login : Login) where
  -- The effect of the loop over the keys of `keys`.
  record Cleared (keys : Map AccountPro) (m m' : AccountMgr c) : Type 0 where
    live : IsLive m'.db
    idle : m'.idle_accounts ≡ m.idle_accounts
    accounts :
        (j : Text)
        → find j m'.accounts_pro ≡ (
            if contains j keys then modify reset (find j m.accounts_pro) else find j m.accounts_pro)

  reset_each-Cleared :
      (keys : Map AccountPro) (m : AccountMgr c)
      → IsLive m.db
      → ShortKeys keys
      → (m' : AccountMgr c) × (reset_each c login keys m ≡ some m') × Cleared keys m m'
  unfolding reset_each find
  reset_each-Cleared [] m live short =
      (m, refl, record { live = live; idle = refl; accounts = λ j. refl })
  reset_each-Cleared ((acc, p) ∷ keys) m live short =
      let (n, e, one) =
        set_everyday_task-Changed login acc m wx_account_dailytask_not_finished live short.0 in
      let (m', e', rest) = reset_each-Cleared keys n one.live short.1 in
      (
        m',
        rw e e',
        record {
          live = rest.live;
          idle = rest.idle ∙ one.idle;
          accounts = λ j.
              twice acc p keys j (find j m.accounts_pro) _ _ (one.accounts j) (rest.accounts j);
        },
      )

  -- With live pointers and names of at most 500 bytes, `reset_all_everyday_task` ends, whatever the
  -- database answers; afterwards every account is as before but for its daily task, which is not
  -- finished, no account is missing or new, and the idle list is unchanged.
  pub reset_all_everyday_task_lem :
      (m : AccountMgr c)
      → IsLive m.db
      → ShortKeys m.accounts_pro
      → (m' : AccountMgr c) × (reset_all_everyday_task c login m ≡ some m')
        × IsLive m'.db
        × (m'.idle_accounts ≡ m.idle_accounts)
        × ((j : Text) → find j m'.accounts_pro ≡ modify reset (find j m.accounts_pro))
  unfolding reset_all_everyday_task
  reset_all_everyday_task_lem m live short =
      let (m', e, all) = reset_each-Cleared m.accounts_pro m live short in
      (m', e, all.live, all.idle, λ j. everywhere (find j m.accounts_pro) (all.accounts j))
