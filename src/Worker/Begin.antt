-- ===== src/Worker/Begin.antt =====
-- The idle accounts across the beginning of a vote (src/common/main_task.cpp: do_work_queue;
-- src/wx/wx_vote.cpp: do_task).
use schedule_center.Base.{
  ◌==◌, ◌+◌, ℕ, zero, suc, ◌≤◌, Bool, true, false, List, [], ◌∷◌, Option, none, some, ◌≡◌, refl,
  arith, if◌then◌else◌, ◌%◌, ◌^◌,
}
use schedule_center.Base.Text.{Text, codes, c_str}
use schedule_center.Boost.{Boost}
use schedule_center.Json.{Json}
use schedule_center.Mysql.{Connector, Login}
use schedule_center.Devices.{get_devices_pro_copy}
use schedule_center.Accounts.{get_idle_not_vote_count}
use schedule_center.Daily.{idle_phones}
use schedule_center.Sessions.{Handled, returns, escapes, int_lt}
use schedule_center.Threads.{Session, Common, new_session, new_vote_session}
use schedule_center.Threads.Idle.{times}
use schedule_center.Threads.Exclusive.{holders}
use schedule_center.Protocol.{cmd_sche_wx_vote}
use schedule_center.Worker.{
  with_first, create_threads, vote_threads, new_vote, with_votes, finish, Voting, over, joins,
  started, vote_for, begin_vote, begin_command, begin_work,
}

module _ (b : Boost) (c : Connector) (login : Login) (j : Json) where
  -- New sessions hold no account.
  abbrev pub HoldsNone : Text → Handled (List (Session j)) → Type 0
  HoldsNone x escapes = Unit
  HoldsNone x (returns l) = holders x l ≡ 0

  with_first-HoldsNone :
      (x ip : Text) (pt : j.Ptree) (o : Handled (List (Session j)))
      → HoldsNone x o
      → HoldsNone x (with_first b c login j (new_vote_session j ip pt) o)
  unfolding new_vote_session new_session
  with_first-HoldsNone x ip pt escapes h = tt
  with_first-HoldsNone x ip pt (returns l) h = omega (arith, h)

  create_threads-HoldsNone :
      (x : Text) (threads : ℕ) (pt : j.Ptree) (ips : List Text)
      → HoldsNone x (create_threads b c login j threads pt ips)
  unfolding create_threads
  create_threads-HoldsNone x threads pt [] = refl
  create_threads-HoldsNone x zero pt (ip ∷ ips) = tt
  create_threads-HoldsNone x (suc threads) pt (ip ∷ ips) =
      with_first-HoldsNone x ip pt _ (create_threads-HoldsNone x threads pt ips)

  pub vote_threads-HoldsNone :
      (x : Text) (threads : ℕ) (pt : j.Ptree) (w : Common c login)
      → HoldsNone x (vote_threads b c login j threads pt w)
  unfolding vote_threads
  vote_threads-HoldsNone x threads pt w =
      create_threads-HoldsNone x threads pt (idle_phones (get_devices_pro_copy c w.shared.devices))

module _ {c : Connector} {login : Login} where
  -- In a result, the account is in the idle list at most `n` times.
  abbrev pub Keeps : Text → ℕ → Option (Handled (Text × Common c login)) → Type 0
  Keeps x n none = Unit
  Keeps x n (some escapes) = Unit
  Keeps x n (some (returns (r, w))) = times x w.shared.accounts.idle_accounts ≤ n

  Keeps-if :
      (x : Text) (n : ℕ) (t : Bool) (r r' : Option (Handled (Text × Common c login)))
      → Keeps x n r
      → Keeps x n r'
      → Keeps x n (if t then r else r')
  Keeps-if x n true r r' h k = h
  Keeps-if x n false r r' h k = k

module _ (b : Boost) (c : Connector) (login : Login) (j : Json) where
  pub finish-Keeps :
      (x : Text) (n : ℕ) (id cmd : Option ℕ) (code count : ℕ) (msg : Text) (w : Common c login)
      → times x w.shared.accounts.idle_accounts ≤ n
      → Keeps x n (some (finish b c login j id cmd code count msg w))
  finish-Keeps x n none cmd code count msg w h = tt
  finish-Keeps x n (some id) none code count msg w h = tt
  finish-Keeps x n (some id) (some cmd) code count msg w h = h

  -- A task up to `join_all`: the account is in the idle list at most `n` times, and no thread that
  -- was started holds it.
  abbrev pub Begins : Text → ℕ → Voting b c login j → Type 0
  Begins x n (over e) = Keeps x n (some e)
  Begins x n (joins pt l w) = times x w.shared.accounts.idle_accounts + holders x l ≤ n

  Begins-if :
      (x : Text) (n : ℕ) (t : Bool) (v v' : Voting b c login j)
      → Begins x n v
      → Begins x n v'
      → Begins x n (if t then v else v')
  Begins-if x n true v v' h k = h
  Begins-if x n false v v' h k = k

  started-Begins :
      (x : Text) (n : ℕ) (pt : j.Ptree) (o : Handled (List (Session j))) (w : Common c login)
      → HoldsNone b c login j x o
      → times x w.shared.accounts.idle_accounts ≤ n
      → Begins x n (started b c login j pt o w)
  started-Begins x n pt escapes w none_held h = tt
  started-Begins x n pt (returns l) w none_held h = omega (arith, none_held, h)

  vote_for-Begins :
      (x : Text) (n threads target : ℕ) (url : Option Text) (pt : j.Ptree) (w : Common c login)
      → times x w.shared.accounts.idle_accounts ≤ n
      → Begins x n (vote_for b c login j threads target url pt w)
  vote_for-Begins x n threads target none pt w h = tt
  vote_for-Begins x n threads target (some url) pt w h =
      Begins-if x n (int_lt (get_idle_not_vote_count c url w.shared.accounts % 2 ^ 32) target) _ _
        (finish-Keeps x n (j.get_int pt (codes "task_id")) (j.get_int pt (codes "task_cmd")) _ 0 _ w
          h)
        (started-Begins x n pt _ w (vote_threads-HoldsNone b c login j x threads pt w) h)

  target-Begins :
      (x : Text) (n threads : ℕ) (target : Option ℕ) (pt : j.Ptree) (w : Common c login)
      → times x w.shared.accounts.idle_accounts ≤ n
      → Begins x n (elim target [
        | none ↦ over escapes
        | some m ↦
            vote_for b c login j threads m
              (j.get_string pt (codes "url"))
              pt
              (with_votes b c login j (record w.shared.votes { target_count = m }) w)
      ])
  target-Begins x n threads none pt w h = tt
  target-Begins x n threads (some m) pt w h =
      vote_for-Begins x n threads m (j.get_string pt (codes "url")) pt _ h

  pub begin_vote-Begins :
      (x : Text) (n threads : ℕ) (pt : j.Ptree) (w : Common c login)
      → times x w.shared.accounts.idle_accounts ≤ n
      → Begins x n (begin_vote b c login j threads pt w)
  unfolding begin_vote
  begin_vote-Begins x n threads pt w h =
      target-Begins x n threads (j.get_int pt (codes "votes_cnt")) pt w h

  begin_command-Begins :
      (x : Text) (n threads : ℕ) (cmd : Option ℕ) (pt : j.Ptree) (result : Text)
      (w : Common c login)
      → times x w.shared.accounts.idle_accounts ≤ n
      → Begins x n (begin_command b c login j threads cmd pt result w)
  begin_command-Begins x n threads none pt result w h = tt
  begin_command-Begins x n threads (some cmd) pt result w h =
      Begins-if x n (cmd == cmd_sche_wx_vote) _ _
        (begin_vote-Begins x n threads pt (with_votes b c login j new_vote w) h) h

  -- The beginning of a task, with the threads that it starts, puts an account nowhere.
  pub begin_work-Begins :
      (x : Text) (n threads : ℕ) (task result : Text) (w : Common c login)
      → times x w.shared.accounts.idle_accounts ≤ n
      → Begins x n (begin_work b c login j threads task result w)
  unfolding begin_work
  begin_work-Begins x n threads task result w h = read (j.read_json (c_str task))
    where
      read :
          (o : Option j.Ptree)
          → Begins x n (elim o [
            | none ↦ over escapes
            | some pt ↦
                begin_command b c login j threads (j.get_int pt (codes "task_cmd")) pt result w
          ])
      read none = tt
      read (some pt) =
          begin_command-Begins x n threads (j.get_int pt (codes "task_cmd")) pt result w h
