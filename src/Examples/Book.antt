-- ===== src/Examples/Book.antt =====
-- A sequence of calls of the account manager.
use schedule_center.Base.{
  List, [], ◌∷◌, some, is_some, true, ◌≡◌, refl, arith, subst, Bool-cases, inl, inr, length, ◌≤◌,
}
use schedule_center.Base.Text.{Text, text_eq, text_eq_iff}
use schedule_center.Base.Map.{find}
use schedule_center.Mysql.Live.{IsLive}
use schedule_center.Accounts.{AccountMgr}
use schedule_center.Accounts.Known.{
  Call, vote_turn, daily_turn, give_back, set_vote, set_status, set_daily, reset_daily,
}
use schedule_center.Accounts.Book.{book_of, promise_each, IsSound}
use schedule_center.Accounts.Book.Refines.{apply_each, apply_each-promise}
use schedule_center.Examples.{server, login}
use schedule_center.Examples.Accounts.{ann, bob, url_2, mgr}

-- bob votes and is given back, his daily task is done and reset, and ann is marked.
abbrev calls : List Call
calls =
    vote_turn url_2
    ∷ set_vote bob url_2 1
    ∷ give_back bob
    ∷ daily_turn
    ∷ set_daily bob 1
    ∷ reset_daily
    ∷ set_status ann 2
    ∷ []

-- The accounts are ann and bob.
mgr-short : (acc : Text) → is_some (find acc mgr.accounts_pro) ≡ true → length acc ≤ 500
unfolding find
mgr-short acc e = elim (Bool-cases (text_eq ann acc)) [
  | inl same ↦ subst (λ t. length t ≤ 500) ((text_eq_iff ann acc).0 same) (omega arith)
  | inr other ↦ elim (Bool-cases (text_eq bob acc)) [
    | inl same ↦ subst (λ t. length t ≤ 500) ((text_eq_iff bob acc).0 same) (omega arith)
    | inr another ↦ ground arith
  ]
]

mgr-IsSound : IsSound (book_of mgr)
unfolding find text_eq
mgr-IsSound = record { known = (refl, (refl, tt)); short = mgr-short }

bob_known : is_some (find bob mgr.accounts_pro) ≡ true
unfolding find text_eq
bob_known = refl

apply_each-promise_example :
    (m' : AccountMgr server) × (apply_each login calls mgr ≡ some m')
    × (book_of m' ≡ promise_each calls (book_of mgr))
    × IsLive m'.db
    × IsSound (book_of m')
apply_each-promise_example =
    apply_each-promise login calls mgr (refl, refl) mgr-IsSound
      (tt, (omega arith, (bob_known, (tt, (omega arith, (tt, (omega arith, tt)))))))
