-- ===== src/Accounts/Book/Refines.antt =====
-- wx_account_mgr keeps its promises, over any database.
use schedule_center.Base.{
  Bool, List, [], ◌∷◌, Option, none, some, ◌≡◌, refl, sym, subst, ap, ◌∙◌, All, arith, ◌>>=◌,
}
use schedule_center.Base.Text.{Text}
use schedule_center.Base.Map.{find}
use schedule_center.Mysql.{Connector, Login}
use schedule_center.Mysql.Live.{IsLive}
use schedule_center.Accounts.Data.{AccountPro, set_acc_status_sql}
use schedule_center.Accounts.{
  AccountMgr, may_vote, pick, get_idle_not_vote_account, set_idle_account, set_acc_status,
}
use schedule_center.Accounts.Daily.{passes, hand_out-pick}
use schedule_center.Accounts.Update.{
  Changed, set_account-Changed, set_vote_status-Changed, set_everyday_task-Changed,
  length-set_acc_status_sql,
}
use schedule_center.Accounts.Reset.{reset_all_everyday_task_lem, ShortKeys-contains}
use schedule_center.Accounts.Known.{
  Call, vote_turn, daily_turn, give_back, set_vote, set_status, set_daily, reset_daily, apply,
}
use schedule_center.Accounts.Book.{
  Book, book_of, votes, needs, without_first, changed, promise, promise_each, IsProper, IsSound,
}
use schedule_center.Accounts.Book.Sound.{
  rest_of, rest_of-pick, may_vote-votes, passes-needs, promise-IsSound, still-IsProper,
}

module _ {c : Connector} where
  book-eq :
      (m : AccountMgr c) (k : Book)
      → ((acc : Text) → find acc m.accounts_pro ≡ k.account acc)
      → m.idle_accounts ≡ k.idle
      → book_of m ≡ k
  book-eq m k accounts idle = λ i. record { account = λ acc. accounts acc i; idle = idle i }

  -- A search that takes the account that it finds out of the idle list.
  abbrev taken : AccountMgr c → Option (Text × List Text) → Option Text × AccountMgr c
  taken m none = (none, m)
  taken m (some (acc, rest)) = (some acc, record m { idle_accounts = rest })

  taken-live :
      (m : AccountMgr c) (o : Option (Text × List Text)) → IsLive m.db → IsLive (taken m o).1.db
  taken-live m none live = live
  taken-live m (some (acc, rest)) live = live

  vote_account-taken :
      (url : Text) (m : AccountMgr c)
      → get_idle_not_vote_account c url m
        ≡ taken m (pick (may_vote url m.accounts_pro) m.idle_accounts)
  unfolding get_idle_not_vote_account
  vote_account-taken url m = refl

  taken-book :
      (m : AccountMgr c) (p q : Text → Bool)
      → ((x : Text) → p x ≡ q x)
      → book_of (taken m (pick p m.idle_accounts)).1 ≡ record {
        account = λ acc. find acc m.accounts_pro;
        idle = without_first q m.idle_accounts;
      }
  taken-book m p q same = at (pick p m.idle_accounts) (rest_of-pick p q same m.idle_accounts)
    where
      at :
          (o : Option (Text × List Text))
          → rest_of m.idle_accounts o ≡ without_first q m.idle_accounts
          → book_of (taken m o).1 ≡ record {
            account = λ acc. find acc m.accounts_pro;
            idle = without_first q m.idle_accounts;
          }
      at none e = book-eq m _ (λ acc. refl) e
      at (some (acc, rest)) e = book-eq (record m { idle_accounts = rest }) _ (λ acc. refl) e

module _ {c : Connector} (login : Login) where
  -- A method ends, with live pointers, as the book promises.
  abbrev Kept : Call → AccountMgr c → Type 0
  Kept call m =
      (m' : AccountMgr c) × (apply c login call m ≡ some m')
      × IsLive m'.db
      × (book_of m' ≡ promise call (book_of m))

  changed-Kept :
      (acc : Text) (f : AccountPro → AccountPro) (m m' : AccountMgr c)
      → Changed acc f m m'
      → book_of m' ≡ changed acc f (book_of m)
  changed-Kept acc f m m' h = book-eq m' _ h.accounts h.idle

  apply-Kept :
      (call : Call) (m : AccountMgr c)
      → IsLive m.db
      → IsSound (book_of m)
      → IsProper (book_of m) call
      → Kept call m
  unfolding set_idle_account set_acc_status
  apply-Kept (vote_turn url) m live sound proper =
      let o = pick (may_vote url m.accounts_pro) m.idle_accounts in
      (
        (taken m o).1,
        ap (λ r. some r.1) (vote_account-taken url m),
        taken-live m o live,
        taken-book m _ (λ acc. votes url (find acc m.accounts_pro))
            (may_vote-votes url m.accounts_pro),
      )
  apply-Kept daily_turn m live sound proper =
      let o = pick (passes m.accounts_pro) m.idle_accounts in
      (
        (taken m o).1,
        ap (λ r. some r.1) (hand_out-pick m sound.known),
        taken-live m o live,
        taken-book m _ (λ acc. needs (find acc m.accounts_pro)) (passes-needs m.accounts_pro),
      )
  apply-Kept (give_back acc) m live sound proper = (set_idle_account c acc m, refl, live, refl)
  apply-Kept (set_vote acc url status) m live sound proper =
      let (m', run, h) = set_vote_status-Changed login acc m url status live proper in
      (m', run, h.live, changed-Kept acc _ m m' h)
  apply-Kept (set_status acc status) m live sound proper =
      let (m', run, h) =
        set_account-Changed login acc (λ p. record p { status = status }) 640
          (set_acc_status_sql acc status) m live
          (omega (arith, length-set_acc_status_sql acc status)) in
      (m', run, h.live, changed-Kept acc _ m m' h)
  apply-Kept (set_daily acc b_done) m live sound proper =
      let (m', run, h) = set_everyday_task-Changed login acc m b_done live proper in
      (m', run, h.live, changed-Kept acc _ m m' h)
  apply-Kept reset_daily m live sound proper =
      let (m', run, live', idle, accounts) =
        reset_all_everyday_task_lem login m live (ShortKeys-contains m.accounts_pro sound.short) in
      (m', run, live', book-eq m' _ accounts idle)

  -- Methods that are called one after another.
  unfoldable pub apply_each : List Call → AccountMgr c → Option (AccountMgr c)
  apply_each [] m = some m
  apply_each (call ∷ calls) m = apply c login call m >>= apply_each calls

  -- With live pointers, known idle accounts and names of at most 500 bytes, any sequence of the
  -- methods that change the manager, with names and urls that fit their queries and known accounts
  -- given back, ends, whatever the database answers, and leaves the manager with exactly the accounts
  -- and the idle list that the promises of the methods give, one after another, where these read and
  -- write what is known of each account and have no order of the accounts and no database.
  pub apply_each-promise :
      (calls : List Call) (m : AccountMgr c)
      → IsLive m.db
      → IsSound (book_of m)
      → All (IsProper (book_of m)) calls
      → (m' : AccountMgr c) × (apply_each calls m ≡ some m')
        × (book_of m' ≡ promise_each calls (book_of m))
        × IsLive m'.db
        × IsSound (book_of m')
  unfolding promise_each apply_each
  apply_each-promise [] m live sound proper = (m, refl, refl, live, sound)
  apply_each-promise (call ∷ calls) m live sound proper =
      let (m1, first, live1, same) = apply-Kept call m live sound proper.0 in
      let sound1 : IsSound (book_of m1) =
        subst IsSound (sym same) (promise-IsSound call (book_of m) proper.0 sound) in
      let (m2, rest, same2, live2, sound2) = apply_each-promise calls m1 live1 sound1 (
        subst (λ k. All (IsProper k) calls) (sym same)
          (still-IsProper call (book_of m) calls proper.1)) in
      (
        m2,
        ap (λ o. o >>= apply_each calls) first ∙ rest,
        same2 ∙ ap (promise_each calls) same,
        live2,
        sound2,
      )
