-- ===== src/Threads/Stays.antt =====
-- Which steps disconnect a session's slot (src/common/a_session.cpp: start and
-- on_restart_lua_timeout).
use schedule_center.Base.{
  ℕ, Bool, true, false, ◌&&◌, ◌∷◌, Option, none, some, ◌≡◌, refl, if◌then◌else◌, ◌>>=◌, is_some,
}
use schedule_center.Base.Text.{Text}
use schedule_center.Boost.{Boost}
use schedule_center.Json.{Json}
use schedule_center.Mysql.{Connector, Login}
use schedule_center.Accounts.{
  AccountMgr, get_idle_not_vote_account, get_idle_not_daily_task_account,
}
use schedule_center.Phones.{find_connection}
use schedule_center.Sessions.{Shared, Handled, returns, escapes, need_wait_vote, need_vote}
use schedule_center.Sessions.Wire.{Order, read_order}
use schedule_center.Threads.{
  Pc, starting, connecting, refused, taking, gating, asking, sending, reading, aborting, restarting,
  leaving, finishing, ended, Input, runs, reads, expires, cancelled, Session, Common, goes, begin,
  enter_loop, connects, taken, take_account, send, message, handle, handled, step_at,
}

abbrev pub is_timeout : Input → Bool
is_timeout expires = true
is_timeout _ = false

module _ {c : Connector} {login : Login} {j : Json} where
  abbrev pub Stays : ℕ → Option (Handled (Session j × Common c login)) → Type 0
  Stays p none = Unit
  Stays p (some escapes) = Unit
  Stays p (some (returns (s, w))) = s.connected ≡ some p

  Stays-bind {ℓ} :
      {A : Type ℓ} (p : ℕ) (o : Option A) (f : A → Option (Handled (Session j × Common c login)))
      → ((a : A) → Stays p (f a))
      → Stays p (o >>= f)
  Stays-bind p none f h = tt
  Stays-bind p (some a) f h = h a

  Stays-if :
      (p : ℕ) (t : Bool) (r r' : Option (Handled (Session j × Common c login)))
      → Stays p r
      → Stays p r'
      → Stays p (if t then r else r')
  Stays-if p true r r' h k = h
  Stays-if p false r r' h k = k

module _ (b : Boost) (c : Connector) (login : Login) (j : Json) where
  begin-Stays :
      (p : ℕ) (r : Option (Option ℕ)) (s : Session j) (w : Common c login)
      → s.connected ≡ some p
      → Stays p (begin b c login j r s w)
  begin-Stays p none s w h = tt
  begin-Stays p (some none) s w h = h
  begin-Stays p (some (some q)) s w h =
      Stays-bind p _
        (λ w'. some (
          returns (
            record s {
              pc = connecting;
              pconn = q;
              connected = if is_some s.connected then s.connected else some q;
            },
            w',
          )))
        (λ w'. rw h refl)

  enter_loop-Stays :
      (p : ℕ) (pt : Option j.Ptree) (s : Session j) (w : Common c login)
      → s.connected ≡ some p
      → Stays p (enter_loop b c login j pt s w)
  enter_loop-Stays p none s w h = h
  enter_loop-Stays p (some pt) s w h = order (read_order j pt)
    where
      order :
          (o : Option Order)
          → Stays p (elim o [
            | none ↦ some escapes
            | some o' ↦ goes b c login j taking (record s { order = o' }) w
          ])
      order none = tt
      order (some o) = h

  connect-Stays :
      (p : ℕ) (ok : Bool) (s : Session j) (w : Common c login)
      → s.connected ≡ some p
      → Stays p (connects b c login j ok s w)
  connect-Stays p true s w h = enter_loop-Stays p s.pt _ w h
  connect-Stays p false s w h = h

  taken-Stays :
      (p : ℕ) (into : Text → Pc) (r : Option Text × AccountMgr c) (s : Session j)
      (w : Common c login)
      → s.connected ≡ some p
      → Stays p (taken b c login j leaving into r s w)
  taken-Stays p into (none, a) s w h = h
  taken-Stays p into (some acc, a) s w h = h

  take_account-Stays :
      (p : ℕ) (pt : Option j.Ptree) (s : Session j) (w : Common c login)
      → s.connected ≡ some p
      → Stays p (take_account b c login j pt s w)
  take_account-Stays p none s w h =
      taken-Stays p sending (get_idle_not_daily_task_account c w.shared.accounts) s w h
  take_account-Stays p (some pt) s w h =
      taken-Stays p gating (get_idle_not_vote_account c s.order.url w.shared.accounts) s w h

  send-Stays :
      (p : ℕ) (ok : Bool) (acc : Text) (s : Session j) (w : Common c login)
      → s.connected ≡ some p
      → Stays p (send b c login j ok acc s w)
  send-Stays p ok acc s w h =
      Stays-bind p _
        (λ w'.
          if s.socket_open && ok
          then goes b c login j (reading acc)
              (record s { messages = message b c login j s.pt acc s w' ∷ s.messages }) w'
          else goes b c login j taking s w')
        (λ w'. Stays-if p (s.socket_open && ok) _ (goes b c login j taking s w') h h)

  handled-Stays :
      (p : ℕ) (pc : Pc) (s : Session j) (w : Common c login) (r : Option (Handled (Shared c login)))
      → s.connected ≡ some p
      → Stays p (r >>= λ h. some (handled b c login j pc s w h))
  handled-Stays p pc s w none h = tt
  handled-Stays p pc s w (some escapes) h = tt
  handled-Stays p pc s w (some (returns sh)) h = h

  -- Only a timeout disconnects a session.
  pub step_at-Stays :
      (p : ℕ) (pc : Pc) (i : Input) (s : Session j) (w : Common c login)
      → is_timeout i ≡ false
      → s.connected ≡ some p
      → Stays p (step_at b c login j pc i s w)
  step_at-Stays p starting (runs ok) s w t h =
      begin-Stays p (find_connection w.store s.ip w.connections) s w h
  step_at-Stays p connecting (runs ok) s w t h = connect-Stays p ok s w h
  step_at-Stays p refused expires s w t h = cc
  step_at-Stays p taking (runs ok) s w t h = take_account-Stays p s.pt s w h
  step_at-Stays p (gating acc) (runs ok) s w t h =
      Stays-if p (need_wait_vote c login w.shared) _ (goes b c login j (sending acc) s w) h h
  step_at-Stays p (asking acc) (runs ok) s w t h =
      Stays-if p (need_vote w.shared.votes) _ (goes b c login j leaving s w) h h
  step_at-Stays p (sending acc) (runs ok) s w t h = send-Stays p ok acc s w h
  step_at-Stays p (reading acc) (reads e buffer) s w t h =
      handled-Stays p taking s w (handle b c login j s.pt acc e buffer s w.shared) h
  step_at-Stays p (aborting acc) (reads e buffer) s w t h =
      handled-Stays p restarting s w (handle b c login j s.pt acc e buffer s w.shared) h
  step_at-Stays p (reading acc) expires s w t h = cc
  step_at-Stays p restarting expires s w t h = cc
  step_at-Stays p restarting cancelled s w t h = h
  step_at-Stays p leaving (runs ok) s w t h = h
  step_at-Stays p finishing (runs ok) s w t h =
      Stays-bind p _ (λ w'. goes b c login j ended s w') (λ w'. h)
  step_at-Stays p pc i s w t h = h
