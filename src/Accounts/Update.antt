-- ===== src/Accounts/Update.antt =====
-- The setters of wx_account_mgr (src/wx/wx_account_mgr.cpp) over any database.
use schedule_center.Base.{
  ℕ, ◌+◌, ◌≤◌, ◌<◌, true, false, ◌&&◌, Option, none, some, ◌≡◌, refl, if◌then◌else◌, Option-cases,
  inl, inr, arith, length, length-append, modify,
}
use schedule_center.Base.Text.{
  Text, text_eq, text_eq_iff, text_eq_refl, length-c_str, length-show_int, sprintf-fits,
  sprintf-overflow,
}
use schedule_center.Base.Map.{find, assign, insert, find-assign, find-insert}
use schedule_center.Mysql.{Connector, Login, Db, execute_update}
use schedule_center.Mysql.Live.{
  IsLive, KeepsLive, KeepsLive→end, bind-KeepsLive, try_catch-KeepsLive, pure-KeepsLive,
  call-KeepsLive, set_con-KeepsLive, set_stmt-KeepsLive, close_con-KeepsLive, close_stmt-KeepsLive,
  execute_update-KeepsLive,
}
use schedule_center.Accounts.Sql.{init_sql_conn}
use schedule_center.Accounts.Data.{
  AccountPro, wx_account_status_voted, wx_account_status_abnormal, set_vote_status_sql,
  set_acc_status_sql, set_everyday_task_sql,
}
use schedule_center.Accounts.{
  AccountMgr, update_row, set_account, set_vote_status, set_acc_status, set_everyday_task,
  vote_status, get_vote_status,
}
use schedule_center.Accounts.Idle.{CanVote}

module _ {c : Connector} where
  init_sql_conn-KeepsLive : (login : Login) → KeepsLive (init_sql_conn c login)
  unfolding init_sql_conn
  init_sql_conn-KeepsLive login = bind-KeepsLive _ _ close_con-KeepsLive λ _.
      try_catch-KeepsLive _ _
        (bind-KeepsLive _ _ (call-KeepsLive _) λ p. bind-KeepsLive _ _ (set_con-KeepsLive p) λ _.
          bind-KeepsLive _ _ (call-KeepsLive _) λ _. bind-KeepsLive _ _ close_stmt-KeepsLive λ _.
            bind-KeepsLive _ _ (call-KeepsLive _)
              λ s. bind-KeepsLive _ _ (set_stmt-KeepsLive s) λ _. pure-KeepsLive true)
        (pure-KeepsLive false)

  -- The effect of a setter on the manager: one account changes by `f`, if it is known.
  pub record Changed (acc : Text) (f : AccountPro → AccountPro) (m m' : AccountMgr c) : Type 0 where
    pub live : IsLive m'.db
    pub idle : m'.idle_accounts ≡ m.idle_accounts
    pub accounts :
        (j : Text)
        → find j m'.accounts_pro
          ≡ (if text_eq acc j then modify f (find j m.accounts_pro) else find j m.accounts_pro)

  update_row-some :
      (login : Login) (sql : Text) (m : AccountMgr c)
      → IsLive m.db
      → (d : Db c) × (update_row c login sql m ≡ some (record m { db = d })) × IsLive d
  update_row-some login sql m live =
      let (r, d, e, live') =
        KeepsLive→end (execute_update c (init_sql_conn c login) sql) m.db
          (execute_update-KeepsLive _ sql (init_sql_conn-KeepsLive login)) live in
      (d, rw (e, update_row) refl, live')

  pub set_account-Changed :
      (login : Login) (acc : Text) (f : AccountPro → AccountPro) (size : ℕ) (sql : Text)
      (m : AccountMgr c)
      → IsLive m.db
      → length sql < size
      → (m' : AccountMgr c) × (set_account c login acc f size sql m ≡ some m') × Changed acc f m m'
  set_account-Changed login acc f size sql m live fits =
      elim (Option-cases (find acc m.accounts_pro)) [
        | inl e ↦ (
          m,
          rw (e, set_account) refl,
          record { live = live; idle = refl; accounts = λ j. ground (arith, text_eq_iff acc j) },
        )
        | inr (p, e) ↦
            let n : AccountMgr c = record m { accounts_pro = assign acc (f p) m.accounts_pro } in
            let (d, run, live') = update_row-some login sql n live in
            (
              record n { db = d },
              rw (e, set_account) (rw (sprintf-fits size sql fits) run),
              record {
                live = live';
                idle = refl;
                accounts =
                    λ j. ground (arith, text_eq_iff acc j, find-assign acc j (f p) m.accounts_pro);
              },
            )
      ]

-- The fixed text of each query is at most 100 bytes.
length-set_vote_status_sql :
    (acc url : Text) → length (set_vote_status_sql acc url) ≤ length acc + length url + 100
unfolding set_vote_status_sql
length-set_vote_status_sql acc url =
    simp length-append (omega (arith, length-c_str acc, length-c_str url))

pub length-set_acc_status_sql :
    (acc : Text) (status : ℕ) → length (set_acc_status_sql acc status) ≤ length acc + 100
unfolding set_acc_status_sql
length-set_acc_status_sql acc status =
    simp length-append (omega (arith, length-c_str acc, length-show_int status))

pub length-set_everyday_task_sql :
    (acc : Text) (b_done : ℕ) → length (set_everyday_task_sql acc b_done) ≤ length acc + 100
unfolding set_everyday_task_sql
length-set_everyday_task_sql acc b_done =
    simp length-append (omega (arith, length-c_str acc, length-show_int b_done))

module _ {c : Connector} (login : Login) (acc : Text) (m : AccountMgr c) where
  pub set_everyday_task-Changed :
      (b_done : ℕ)
      → IsLive m.db
      → length acc ≤ 500
      → (m' : AccountMgr c) × (set_everyday_task c login acc b_done m ≡ some m')
        × Changed acc (λ p. record p { everyday_task_completed = b_done }) m m'
  unfolding set_everyday_task
  set_everyday_task-Changed b_done live short =
      set_account-Changed login acc _ 640 (set_everyday_task_sql acc b_done) m live
        (omega (arith, length-set_everyday_task_sql acc b_done))

  pub set_vote_status-Changed :
      (url : Text) (status : ℕ)
      → IsLive m.db
      → length acc + length url ≤ 6000
      → (m' : AccountMgr c) × (set_vote_status c login acc url status m ≡ some m')
        × Changed acc (λ p. record p { voted_url = insert url tt p.voted_url }) m m'
  unfolding set_vote_status
  set_vote_status-Changed url status live short =
      set_account-Changed login acc _ 6400 (set_vote_status_sql acc url) m live
        (omega (arith, length-set_vote_status_sql acc url))

  status-after :
      (m' : AccountMgr c) (url j u : Text)
      → find j m'.accounts_pro ≡ (
          if text_eq acc j
          then modify
              (λ p. record p { voted_url = insert url tt p.voted_url })
              (find j m.accounts_pro)
          else find j m.accounts_pro)
      → vote_status j u m'.accounts_pro ≡ (
          if text_eq acc j && text_eq url u
          then wx_account_status_voted
          else vote_status j u m.accounts_pro)
  unfolding vote_status
  status-after m' url j u e = elim (Option-cases (find j m.accounts_pro)) [
    | inl missing ↦ ground arith
    | inr (p, known) ↦ ground (arith, find-insert url u tt p.voted_url, text_eq_iff url u)
  ]

  -- A vote is remembered, and no other: with live pointers and a name and a url of at most 6000
  -- bytes together, `set_vote_status` ends, whatever the database answers, and after it
  -- `get_vote_status` says voted for this account and url, and what it said before for any other;
  -- the idle list is unchanged. This holds for every `status` that is asked for.
  pub get_vote_status-set_vote_status :
      (url : Text) (status : ℕ)
      → IsLive m.db
      → length acc + length url ≤ 6000
      → (m' : AccountMgr c) × (set_vote_status c login acc url status m ≡ some m')
        × IsLive m'.db
        × (m'.idle_accounts ≡ m.idle_accounts)
        × ((j u : Text)
            → get_vote_status c j u m' ≡ (
                if text_eq acc j && text_eq url u
                then wx_account_status_voted
                else get_vote_status c j u m))
  unfolding get_vote_status vote_status
  get_vote_status-set_vote_status url status live short =
      let (m', e, changed) = set_vote_status-Changed url status live short in
      (m', e, changed.live, changed.idle, λ j u. status-after m' url j u (changed.accounts j))

  -- A query that does not fit the 6400 bytes of `tmp_sql` is written past their end, for every
  -- known account: so for a long enough url.
  pub set_vote_status_overflow :
      (url : Text) (status : ℕ) (p : AccountPro)
      → find acc m.accounts_pro ≡ some p
      → 6400 ≤ length (set_vote_status_sql acc url)
      → set_vote_status c login acc url status m ≡ none
  unfolding set_vote_status
  set_vote_status_overflow url status p e long =
      rw (e, set_account) (rw (sprintf-overflow 6400 (set_vote_status_sql acc url) long) refl)

  abnormal-not-CanVote :
      (m' : AccountMgr c)
      → Changed acc (λ p. record p { status = wx_account_status_abnormal }) m m'
      → (url : Text) (o : Option AccountPro) → find acc m.accounts_pro ≡ o
      → ¬ CanVote url m'.accounts_pro acc
  abnormal-not-CanVote m' changed url none e v =
      ground (arith, changed.accounts acc, text_eq_refl acc, v.known)
  abnormal-not-CanVote m' changed url (some p) e v =
      ground (arith, changed.accounts acc, text_eq_refl acc, v.known, v.sound)

  -- With live pointers and a name of at most 500 bytes, `set_acc_status` to abnormal ends, whatever
  -- the database answers; after it the account is fit to vote for no url, the accounts are as before
  -- but for the status of this one, if it is known, and the idle list is unchanged.
  pub set_acc_status-abnormal :
      IsLive m.db
      → length acc ≤ 500
      → (m' : AccountMgr c) × (set_acc_status c login acc wx_account_status_abnormal m ≡ some m')
        × IsLive m'.db
        × (m'.idle_accounts ≡ m.idle_accounts)
        × ((url : Text) → ¬ CanVote url m'.accounts_pro acc)
        × ((j : Text)
            → find j m'.accounts_pro ≡ (
                if text_eq acc j
                then modify
                    (λ p. record p { status = wx_account_status_abnormal })
                    (find j m.accounts_pro)
                else find j m.accounts_pro))
  unfolding set_acc_status
  set_acc_status-abnormal live short =
      let (m', e, changed) =
        set_account-Changed login acc (λ p. record p { status = wx_account_status_abnormal }) 640
          (set_acc_status_sql acc wx_account_status_abnormal) m live
          (omega (arith, length-set_acc_status_sql acc wx_account_status_abnormal)) in
      (
        m',
        e,
        changed.live,
        changed.idle,
        λ url. abnormal-not-CanVote m' changed url (find acc m.accounts_pro) refl,
        changed.accounts,
      )
