-- ===== src/Server/Whole/Handlers.antt =====
-- What the acceptors and the end of the server keep of the idle list and the sessions.
use schedule_center.Base.{ℕ, Bool, true, false, List, Option, none, some, if◌then◌else◌, ◌>>=◌, not}
use schedule_center.Base.Text.{Text}
use schedule_center.Json.{Json}
use schedule_center.Mysql.{Connector, Login}
use schedule_center.Phones
use schedule_center.Phones.{PhonePool, Ec, no_error, operation_aborted, other_error}
use schedule_center.Schedule
use schedule_center.Threads.{Session}
use schedule_center.Server.{
  reset_phone, aborted_phone, Server, pool_of, with_pool, start_phone_accept, start_schedule_accept,
  accept_phone, accept_schedule, opened_phone, opened_schedule, start_schedule, start_phone,
  accepted_phone, handle_phone_accept, accepted_schedule, handle_schedule_accept, handle_stop,
}
use schedule_center.Server.Accept
use schedule_center.Server.Accept.{
  Event, phone_connects, phone_aborts, schedule_connects, phone_fails, schedule_fails,
}

-- `I` is a property of the idle list and the sessions.
module _ (c : Connector) (login : Login) (j : Json) (fresh : List ℕ → ℕ)
    (I : List Text → List (Session j) → Type 0) where
  abbrev pub Has : Server c login j fresh → Type 0
  Has s = I s.common.shared.accounts.idle_accounts s.sessions

  -- A result has the property.
  abbrev pub Kept : Option (Server c login j fresh) → Type 0
  Kept none = Unit
  Kept (some s) = Has s

  Kept-if :
      (t : Bool) (o o' : Option (Server c login j fresh))
      → Kept o
      → Kept o'
      → Kept (if t then o else o')
  Kept-if true o o' h k = h
  Kept-if false o o' h k = k

  map-Kept :
      (f : Server c login j fresh → Server c login j fresh) (o : Option (Server c login j fresh))
      → ((s : Server c login j fresh) → Has s → Has (f s))
      → Kept o
      → Kept (o >>= λ s. some (f s))
  map-Kept f none k h = tt
  map-Kept f (some s) k h = k s h

  pool-Kept :
      (s : Server c login j fresh) (o : Option (PhonePool c login))
      → Has s
      → Kept (o >>= λ pool. some (record s { common = with_pool c login j fresh pool s.common }))
  pool-Kept s none h = tt
  pool-Kept s (some pool) h = h

  start_phone-Kept :
      (o : Option ℕ) (s : Server c login j fresh) → Has s → Kept (start_phone c login j fresh o s)
  start_phone-Kept none s h = tt
  start_phone-Kept (some p) s h =
      pool-Kept s (Phones.start c login p (pool_of c login j fresh s.common)) h

  start_phone_accept-Has :
      (s : Server c login j fresh) → Has s → Has (start_phone_accept c login j fresh s)
  unfolding start_phone_accept
  start_phone_accept-Has s h = h

  accepted_phone-Kept :
      (e : Ec) (s : Server c login j fresh) → Has s → Kept (accepted_phone c login j fresh e s)
  accepted_phone-Kept no_error s h =
      map-Kept (start_phone_accept c login j fresh) _ start_phone_accept-Has
        (start_phone-Kept s.new_phone_connection s h)
  accepted_phone-Kept operation_aborted s h = start_phone_accept-Has s h
  accepted_phone-Kept other_error s h = start_phone_accept-Has s h

  start_schedule_accept-Has :
      (s : Server c login j fresh) → Has s → Has (start_schedule_accept c login j fresh s)
  unfolding start_schedule_accept
  start_schedule_accept-Has s h = h

  start_schedule-Kept :
      (o : Option ℕ) (s : Server c login j fresh)
      → Has s
      → Kept (start_schedule c login j fresh o s)
  start_schedule-Kept none s h = tt
  start_schedule-Kept (some p) s h = h

  accepted_schedule-Kept :
      (e : Ec) (s : Server c login j fresh) → Has s → Kept (accepted_schedule c login j fresh e s)
  accepted_schedule-Kept no_error s h =
      map-Kept (start_schedule_accept c login j fresh) _ start_schedule_accept-Has
        (start_schedule-Kept s.new_sche_connection s h)
  accepted_schedule-Kept operation_aborted s h = start_schedule_accept-Has s h
  accepted_schedule-Kept other_error s h = start_schedule_accept-Has s h

  opened_phone-Has :
      (peer : Text) (o : Option ℕ) (s : Server c login j fresh)
      → Has s
      → Has (opened_phone c login j fresh o peer s)
  opened_phone-Has peer none s h = h
  opened_phone-Has peer (some p) s h = h

  opened_schedule-Has :
      (o : Option ℕ) (s : Server c login j fresh)
      → Has s
      → Has (opened_schedule c login j fresh o s)
  opened_schedule-Has none s h = h
  opened_schedule-Has (some p) s h = h

  handle_phone_accept-Kept :
      (e : Ec) (s : Server c login j fresh) → Has s → Kept (handle_phone_accept c login j fresh e s)
  unfolding handle_phone_accept
  handle_phone_accept-Kept e s h =
      Kept-if (not s.phone_acceptor) (some s) _ h (accepted_phone-Kept e s h)

  handle_schedule_accept-Kept :
      (e : Ec) (s : Server c login j fresh)
      → Has s
      → Kept (handle_schedule_accept c login j fresh e s)
  unfolding handle_schedule_accept
  handle_schedule_accept-Kept e s h =
      Kept-if (not s.schedule_acceptor) (some s) _ h (accepted_schedule-Kept e s h)

  pub reset_phone-Has :
      (o : Option ℕ) (s : Server c login j fresh) → Has s → Has (reset_phone c login j fresh o s)
  reset_phone-Has none s h = h
  reset_phone-Has (some p) s h = h

  pub handle-Kept :
      (e : Event) (s : Server c login j fresh) → Has s → Kept (Accept.handle c login j fresh e s)
  unfolding accept_phone aborted_phone accept_schedule
  handle-Kept (phone_connects peer) s h =
      handle_phone_accept-Kept no_error _ (opened_phone-Has peer s.new_phone_connection s h)
  handle-Kept (phone_aborts peer) s h =
      let s1 = opened_phone c login j fresh s.new_phone_connection peer s in
      handle_phone_accept-Kept no_error _ (
        reset_phone-Has s1.new_phone_connection s1
          (opened_phone-Has peer s.new_phone_connection s h))
  handle-Kept schedule_connects s h =
      handle_schedule_accept-Kept no_error _ (opened_schedule-Has s.new_sche_connection s h)
  handle-Kept phone_fails s h = handle_phone_accept-Kept other_error s h
  handle-Kept schedule_fails s h = handle_schedule_accept-Kept other_error s h

  pub handle_stop-Kept : (s : Server c login j fresh) → Has s → Kept (handle_stop c login j fresh s)
  unfolding handle_stop
  handle_stop-Kept s h = stopped (Phones.stop_all c login (pool_of c login j fresh s.common))
    where
      stopped :
          (o : Option (PhonePool c login))
          → Kept (
              o >>= λ pool. some (record s {
                phone_acceptor = false;
                schedule_acceptor = false;
                common = with_pool c login j fresh pool s.common;
                sches = Schedule.stop_all s.sches;
                stopped = true;
              }))
      stopped none = tt
      stopped (some pool) = h
