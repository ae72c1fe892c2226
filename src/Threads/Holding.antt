-- ===== src/Threads/Holding.antt =====
-- Which accounts the sessions hold, across their steps.
use schedule_center.Base.{
  ℕ, ◌+◌, ◌≤◌, Bool, true, false, ◌&&◌, ◌∷◌, Option, none, some, ◌≡◌, refl, ap, arith,
  if◌then◌else◌, ◌>>=◌, is_some,
}
use schedule_center.Base.Text.{Text, text_eq}
use schedule_center.Boost.{Boost}
use schedule_center.Json.{Json}
use schedule_center.Mysql.{Connector, Login}
use schedule_center.Devices.{DeviceMgr}
use schedule_center.Accounts.{AccountMgr}
use schedule_center.Phones.{find_connection, Ec, no_error, operation_aborted, other_error}
use schedule_center.Sessions.{Shared, Handled, returns, escapes, need_wait_vote, need_vote}
use schedule_center.Sessions.Wire.{
  Order, read_order, read_text, vote_parse, daily_parse, vote_handle_read, daily_handle_read,
}
use schedule_center.Threads.{
  on_read_timeout, Pc, starting, connecting, refused, taking, gating, asking, sending, reading,
  aborting, restarting, leaving, finishing, ended, Input, runs, reads, expires, cancelled, Session,
  Common, goes, begin, enter_loop, connects, taken, take_account, message, send, handle, handled,
  step_at,
}
use schedule_center.Threads.Idle.{
  one_if, times, HandsOut, get_idle_not_vote_account-HandsOut,
  get_idle_not_daily_task_account-HandsOut,
}
use schedule_center.Threads.Handlers.{IdleWithin, vote_read-IdleWithin, daily_read-IdleWithin}

-- Whether a thread at this point holds the account.
abbrev pub holds : Text → Pc → Bool
holds x (gating acc) = text_eq x acc
holds x (asking acc) = text_eq x acc
holds x (sending acc) = text_eq x acc
holds x (reading acc) = text_eq x acc
holds x (aborting acc) = text_eq x acc
holds x _ = false

module _ {c : Connector} {login : Login} {j : Json} where
  -- How often an account is in the idle list or held, after a step of one session.
  abbrev pub Within : Text → ℕ → Option (Handled (Session j × Common c login)) → Type 0
  Within x n none = Unit
  Within x n (some escapes) = Unit
  Within x n (some (returns (s, w))) =
      times x w.shared.accounts.idle_accounts + one_if (holds x s.pc) ≤ n

  status-Within :
      (x : Text) (n : ℕ) (pc : Pc) (f : Common c login → Session j) (w : Common c login)
      (o : Option (DeviceMgr c))
      → times x w.shared.accounts.idle_accounts + one_if (holds x pc) ≤ n
      → Within x n (
          (o >>= λ d. some (record w { shared = record w.shared { devices = d } })) >>= λ w'.
          some (returns (record (f w') { pc = pc }, w')))
  status-Within x n pc f w none h = tt
  status-Within x n pc f w (some d) h = h

  Within-if :
      (x : Text) (n : ℕ) (t : Bool) (r r' : Option (Handled (Session j × Common c login)))
      → Within x n r
      → Within x n r'
      → Within x n (if t then r else r')
  Within-if x n true r r' h k = h
  Within-if x n false r r' h k = k

module _ (b : Boost) (c : Connector) (login : Login) (j : Json) where
  begin-Within :
      (x : Text) (n : ℕ) (r : Option (Option ℕ)) (s : Session j) (w : Common c login)
      → times x w.shared.accounts.idle_accounts ≤ n
      → Within x n (begin b c login j r s w)
  begin-Within x n none s w h = tt
  begin-Within x n (some none) s w h = omega arith
  begin-Within x n (some (some p)) s w h =
      status-Within x n connecting
        (λ _. record s {
          pconn = p;
          connected = if is_some s.connected then s.connected else some p;
        })
        w _ (omega arith)

  enter_loop-Within :
      (x : Text) (n : ℕ) (pt : Option j.Ptree) (s : Session j) (w : Common c login)
      → times x w.shared.accounts.idle_accounts ≤ n
      → Within x n (enter_loop b c login j pt s w)
  enter_loop-Within x n none s w h = omega arith
  enter_loop-Within x n (some pt) s w h = order (read_order j pt)
    where
      order :
          (o : Option Order)
          → Within x n (elim o [
            | none ↦ some escapes
            | some o' ↦ goes b c login j taking (record s { order = o' }) w
          ])
      order none = tt
      order (some o) = omega arith

  connect-Within :
      (x : Text) (n : ℕ) (ok : Bool) (s : Session j) (w : Common c login)
      → times x w.shared.accounts.idle_accounts ≤ n
      → Within x n (connects b c login j ok s w)
  connect-Within x n true s w h = enter_loop-Within x n s.pt _ w h
  connect-Within x n false s w h = omega arith

  taken-Within :
      (x : Text) (n : ℕ) (into : Text → Pc) (r : Option Text × AccountMgr c) (s : Session j)
      (w : Common c login)
      → ((acc : Text) → holds x (into acc) ≡ text_eq x acc)
      → HandsOut x w.shared.accounts r
      → times x w.shared.accounts.idle_accounts ≤ n
      → Within x n (taken b c login j leaving into r s w)
  taken-Within x n into (none, a) s w e h k = omega arith
  taken-Within x n into (some acc, a) s w e h k = omega (arith, ap one_if (e acc))

  take_account-Within :
      (x : Text) (n : ℕ) (pt : Option j.Ptree) (s : Session j) (w : Common c login)
      → times x w.shared.accounts.idle_accounts ≤ n
      → Within x n (take_account b c login j pt s w)
  take_account-Within x n none s w k =
      taken-Within x n sending _ s w (λ acc. refl)
        (get_idle_not_daily_task_account-HandsOut x w.shared.accounts) k
  take_account-Within x n (some pt) s w k =
      taken-Within x n gating _ s w (λ acc. refl)
        (get_idle_not_vote_account-HandsOut x s.order.url w.shared.accounts) k

  handled-Within :
      (x : Text) (n : ℕ) (pc : Pc) (s : Session j) (w : Common c login)
      (r : Option (Handled (Shared c login)))
      → holds x pc ≡ false
      → IdleWithin x n r
      → Within x n (r >>= λ h. some (handled b c login j pc s w h))
  handled-Within x n pc s w none e h = tt
  handled-Within x n pc s w (some escapes) e h = tt
  handled-Within x n pc s w (some (returns sh)) e h = omega (arith, ap one_if e)

  vote_handle_read-IdleWithin :
      (x ip acc url : Text) (e : Ec) (buffer : Text) (s : Shared c login)
      → IdleWithin x
          (times x s.accounts.idle_accounts + one_if (text_eq x acc))
          (vote_handle_read b c login j ip acc url e buffer s)
  unfolding vote_handle_read
  vote_handle_read-IdleWithin x ip acc url no_error buffer s = parsed (read_text b buffer)
    where
      parsed :
          (t : Option (Option Text))
          → IdleWithin {c = c} {login = login} x
              (times x s.accounts.idle_accounts + one_if (text_eq x acc))
              (vote_parse b c login j ip acc url t s)
      parsed none = tt
      parsed (some none) = tt
      parsed (some (some t)) = vote_read-IdleWithin j x ip acc url no_error (j.read_json t) s
  vote_handle_read-IdleWithin x ip acc url operation_aborted buffer s =
      vote_read-IdleWithin j x ip acc url operation_aborted none s
  vote_handle_read-IdleWithin x ip acc url other_error buffer s =
      vote_read-IdleWithin j x ip acc url other_error none s

  daily_handle_read-IdleWithin :
      (x ip acc : Text) (e : Ec) (buffer : Text) (s : Shared c login)
      → IdleWithin x
          (times x s.accounts.idle_accounts + one_if (text_eq x acc))
          (daily_handle_read b c login j ip acc e buffer s)
  unfolding daily_handle_read
  daily_handle_read-IdleWithin x ip acc no_error buffer s = parsed (read_text b buffer)
    where
      parsed :
          (t : Option (Option Text))
          → IdleWithin {c = c} {login = login} x
              (times x s.accounts.idle_accounts + one_if (text_eq x acc))
              (daily_parse b c login j ip acc t s)
      parsed none = tt
      parsed (some none) = tt
      parsed (some (some t)) = daily_read-IdleWithin j x ip acc no_error (j.read_json t) s
  daily_handle_read-IdleWithin x ip acc operation_aborted buffer s =
      daily_read-IdleWithin j x ip acc operation_aborted none s
  daily_handle_read-IdleWithin x ip acc other_error buffer s =
      daily_read-IdleWithin j x ip acc other_error none s

  handle-IdleWithin :
      (x : Text) (pt : Option j.Ptree) (acc : Text) (e : Ec) (buffer : Text) (s : Session j)
      (sh : Shared c login)
      → IdleWithin x
          (times x sh.accounts.idle_accounts + one_if (text_eq x acc))
          (handle b c login j pt acc e buffer s sh)
  handle-IdleWithin x none acc e buffer s sh = daily_handle_read-IdleWithin x s.ip acc e buffer sh
  handle-IdleWithin x (some pt) acc e buffer s sh =
      vote_handle_read-IdleWithin x s.ip acc s.order.url e buffer sh

  sent-Within :
      (x acc : Text) (t : Bool) (s : Session j) (w : Common c login) (o : Option (DeviceMgr c))
      → Within x (times x w.shared.accounts.idle_accounts + one_if (text_eq x acc)) (
          (o >>= λ d. some (record w { shared = record w.shared { devices = d } })) >>= λ w'.
          if t
          then goes b c login j
              (reading acc)
              (record s { messages = message b c login j s.pt acc s w' ∷ s.messages })
              w'
          else goes b c login j taking s w')
  sent-Within x acc t s w none = tt
  sent-Within x acc true s w (some d) = omega arith
  sent-Within x acc false s w (some d) = omega arith

  send-Within :
      (x acc : Text) (ok : Bool) (s : Session j) (w : Common c login)
      → Within x
          (times x w.shared.accounts.idle_accounts + one_if (text_eq x acc))
          (send b c login j ok acc s w)
  send-Within x acc ok s w = sent-Within x acc (s.socket_open && ok) s w _

  on_read_timeout-Within :
      (x : Text) (pt : Option j.Ptree) (acc : Text) (s : Session j) (w : Common c login)
      → Within x
          (times x w.shared.accounts.idle_accounts + one_if (text_eq x acc))
          (on_read_timeout b c login j pt acc s w)
  on_read_timeout-Within x none acc s w = omega arith
  on_read_timeout-Within x (some pt) acc s w = omega arith

  -- No step puts an account into the idle list or into a thread's hands that was in neither.
  pub step_at-Within :
      (x : Text) (pc : Pc) (i : Input) (s : Session j) (w : Common c login)
      → Within x
          (times x w.shared.accounts.idle_accounts + one_if (holds x pc))
          (step_at b c login j pc i s w)
  step_at-Within x starting (runs ok) s w =
      begin-Within x _ (find_connection w.store s.ip w.connections) s w (omega arith)
  step_at-Within x connecting (runs ok) s w = connect-Within x _ ok s w (omega arith)
  step_at-Within x refused expires s w = omega arith
  step_at-Within x refused cancelled s w = omega arith
  step_at-Within x taking (runs ok) s w = take_account-Within x _ s.pt s w (omega arith)
  step_at-Within x (gating acc) (runs ok) s w =
      Within-if x _ (need_wait_vote c login w.shared) _ _ (omega arith) (omega arith)
  step_at-Within x (asking acc) (runs ok) s w =
      Within-if x _ (need_vote w.shared.votes) _ _ (omega arith) (omega arith)
  step_at-Within x (sending acc) (runs ok) s w = send-Within x acc ok s w
  step_at-Within x (reading acc) (reads e buffer) s w =
      handled-Within x _ taking s w _ refl (handle-IdleWithin x s.pt acc e buffer s w.shared)
  step_at-Within x (reading acc) expires s w = on_read_timeout-Within x s.pt acc s w
  step_at-Within x (aborting acc) (reads e buffer) s w =
      handled-Within x _ restarting s w _ refl (handle-IdleWithin x s.pt acc e buffer s w.shared)
  step_at-Within x restarting expires s w = omega arith
  step_at-Within x restarting cancelled s w = omega arith
  step_at-Within x leaving (runs ok) s w = omega arith
  step_at-Within x finishing (runs ok) s w = status-Within x _ ended (λ _. s) w _ (omega arith)
  step_at-Within x pc i s w = omega arith
