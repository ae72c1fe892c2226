-- ===== src/Threads/Kinds.antt =====
-- What a session is for: its order stays, and its thread ends once (src/common/a_session.cpp: start,
-- with the loops of wx_vote_session.cpp and keep_wx_account_session.cpp).
use schedule_center.Base.{
  ℕ, Bool, true, false, ◌&&◌, ◌∷◌, Option, none, some, ◌≡◌, refl, if◌then◌else◌, ◌>>=◌, ◌⊎◌, inl,
  inr, subst, sym, is_some,
}
use schedule_center.Base.Text.{Text}
use schedule_center.Boost.{Boost}
use schedule_center.Json.{Json}
use schedule_center.Mysql.{Connector, Login}
use schedule_center.Accounts.{
  AccountMgr, get_idle_not_vote_account, get_idle_not_daily_task_account,
}
use schedule_center.Phones.{find_connection}
use schedule_center.Sessions.{Shared, Handled, returns, escapes, need_wait_vote, need_vote}
use schedule_center.Sessions.Wire.{Order, read_order}
use schedule_center.Threads.{
  Pc, starting, connecting, refused, taking, gating, asking, sending, reading, aborting, restarting,
  leaving, finishing, ended, Input, runs, reads, expires, Session, Common, goes, begin, enter_loop,
  connects, taken, take_account, send, message, handle, handled, on_read_timeout, step_at,
}

module _ {c : Connector} {login : Login} {j : Json} where
  abbrev OfKind : Option j.Ptree → Option (Handled (Session j × Common c login)) → Type 0
  OfKind k none = Unit
  OfKind k (some escapes) = Unit
  OfKind k (some (returns (s, w))) = s.pt ≡ k

  OfKind-bind {ℓ} :
      {A : Type ℓ} (k : Option j.Ptree) (o : Option A)
      (f : A → Option (Handled (Session j × Common c login)))
      → ((a : A) → OfKind k (f a))
      → OfKind k (o >>= f)
  OfKind-bind k none f h = tt
  OfKind-bind k (some a) f h = h a

  OfKind-if :
      (k : Option j.Ptree) (t : Bool) (r r' : Option (Handled (Session j × Common c login)))
      → OfKind k r
      → OfKind k r'
      → OfKind k (if t then r else r')
  OfKind-if k true r r' h h' = h
  OfKind-if k false r r' h h' = h'

module _ (b : Boost) (c : Connector) (login : Login) (j : Json) where
  begin-OfKind :
      (r : Option (Option ℕ)) (s : Session j) (w : Common c login)
      → OfKind s.pt (begin b c login j r s w)
  begin-OfKind none s w = tt
  begin-OfKind (some none) s w = refl
  begin-OfKind (some (some q)) s w =
      OfKind-bind s.pt _
        (λ w'. some (
          returns (
            record s {
              pc = connecting;
              pconn = q;
              connected = if is_some s.connected then s.connected else some q;
            },
            w',
          )))
        (λ w'. refl)

  order-OfKind :
      (o : Option Order) (s : Session j) (w : Common c login)
      → OfKind s.pt (elim o [
        | none ↦ some escapes
        | some o' ↦ goes b c login j taking (record s { order = o' }) w
      ])
  order-OfKind none s w = tt
  order-OfKind (some o) s w = refl

  enter_loop-OfKind :
      (pt : Option j.Ptree) (s : Session j) (w : Common c login)
      → OfKind s.pt (enter_loop b c login j pt s w)
  enter_loop-OfKind none s w = refl
  enter_loop-OfKind (some pt) s w = order-OfKind (read_order j pt) s w

  connects-OfKind :
      (ok : Bool) (s : Session j) (w : Common c login) → OfKind s.pt (connects b c login j ok s w)
  connects-OfKind true s w = enter_loop-OfKind s.pt _ w
  connects-OfKind false s w = refl

  taken-OfKind :
      (into : Text → Pc) (r : Option Text × AccountMgr c) (s : Session j) (w : Common c login)
      → OfKind s.pt (taken b c login j leaving into r s w)
  taken-OfKind into (none, a) s w = refl
  taken-OfKind into (some acc, a) s w = refl

  take_account-OfKind :
      (pt : Option j.Ptree) (s : Session j) (w : Common c login)
      → OfKind s.pt (take_account b c login j pt s w)
  take_account-OfKind none s w =
      taken-OfKind sending (get_idle_not_daily_task_account c w.shared.accounts) s w
  take_account-OfKind (some pt) s w =
      taken-OfKind gating (get_idle_not_vote_account c s.order.url w.shared.accounts) s w

  send-OfKind :
      (ok : Bool) (acc : Text) (s : Session j) (w : Common c login)
      → OfKind s.pt (send b c login j ok acc s w)
  send-OfKind ok acc s w =
      OfKind-bind s.pt _
        (λ w'.
          if s.socket_open && ok
          then goes b c login j (reading acc)
              (record s { messages = message b c login j s.pt acc s w' ∷ s.messages }) w'
          else goes b c login j taking s w')
        (λ w'. OfKind-if s.pt (s.socket_open && ok) _ (goes b c login j taking s w') refl refl)

  handled-OfKind :
      (pc : Pc) (s : Session j) (w : Common c login) (r : Option (Handled (Shared c login)))
      → OfKind s.pt (r >>= λ h. some (handled b c login j pc s w h))
  handled-OfKind pc s w none = tt
  handled-OfKind pc s w (some escapes) = tt
  handled-OfKind pc s w (some (returns sh)) = refl

  on_read_timeout-OfKind :
      (pt : Option j.Ptree) (acc : Text) (s : Session j) (w : Common c login)
      → OfKind s.pt (on_read_timeout b c login j pt acc s w)
  on_read_timeout-OfKind none acc s w = refl
  on_read_timeout-OfKind (some pt) acc s w = refl

  pub step_at-OfKind :
      (pc : Pc) (i : Input) (s : Session j) (w : Common c login)
      → OfKind s.pt (step_at b c login j pc i s w)
  step_at-OfKind starting (runs ok) s w =
      begin-OfKind (find_connection w.store s.ip w.connections) s w
  step_at-OfKind connecting (runs ok) s w = connects-OfKind ok s w
  step_at-OfKind refused expires s w = refl
  step_at-OfKind taking (runs ok) s w = take_account-OfKind s.pt s w
  step_at-OfKind (gating acc) (runs ok) s w =
      OfKind-if s.pt (need_wait_vote c login w.shared) _ (goes b c login j (sending acc) s w) refl
        refl
  step_at-OfKind (asking acc) (runs ok) s w =
      OfKind-if s.pt (need_vote w.shared.votes) _ (goes b c login j leaving s w) refl refl
  step_at-OfKind (sending acc) (runs ok) s w = send-OfKind ok acc s w
  step_at-OfKind (reading acc) (reads e buffer) s w =
      handled-OfKind taking s w (handle b c login j s.pt acc e buffer s w.shared)
  step_at-OfKind (reading acc) expires s w = on_read_timeout-OfKind s.pt acc s w
  step_at-OfKind (aborting acc) (reads e buffer) s w =
      handled-OfKind restarting s w (handle b c login j s.pt acc e buffer s w.shared)
  step_at-OfKind restarting expires s w = refl
  step_at-OfKind leaving (runs ok) s w = refl
  step_at-OfKind finishing (runs ok) s w =
      OfKind-bind s.pt _ (λ w'. goes b c login j ended s w') (λ w'. refl)
  step_at-OfKind pc i s w = refl

  step_at-ended :
      (i : Input) (s : Session j) (w : Common c login)
      → step_at b c login j ended i s w ≡ some (returns (record s { pc = ended }, w))
  step_at-ended i s w = refl

  -- No voting session's thread runs.
  abbrev pub IsOver : Session j → Type 0
  IsOver s = (s.pt ≡ none) ⊎ (s.pc ≡ ended)

  -- In the result of a step.
  abbrev pub StaysOver : Option (Handled (Session j × Common c login)) → Type 0
  StaysOver none = Unit
  StaysOver (some escapes) = Unit
  StaysOver (some (returns (s, w))) = IsOver s

  daily-StaysOver :
      (o : Option (Handled (Session j × Common c login))) → OfKind none o → StaysOver o
  daily-StaysOver none h = tt
  daily-StaysOver (some escapes) h = tt
  daily-StaysOver (some (returns (s, w))) h = inl h

  -- A step starts no vote, and no ended thread again.
  pub step_at-StaysOver :
      (i : Input) (s : Session j) (w : Common c login)
      → IsOver s
      → StaysOver (step_at b c login j s.pc i s w)
  step_at-StaysOver i s w (inl daily) =
      daily-StaysOver _
        (subst (λ k. OfKind k (step_at b c login j s.pc i s w)) daily (step_at-OfKind s.pc i s w))
  step_at-StaysOver i s w (inr e) =
      subst (λ (pc : Pc). StaysOver (step_at b c login j pc i s w)) (sym e) (inr refl)
