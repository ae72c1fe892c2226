-- ===== src/Server/Connects.antt =====
-- Phones and clients that connect (src/common/main_task.cpp: handle_phone_accept and
-- handle_schedule_accept).
use schedule_center.Base.{
  ℕ, ◌≤◌, true, false, not, List, some, ◌≡◌, refl, ap, ◌∙◌, arith, length, if◌then◌else◌, ◌>>=◌,
  sym, subst, Bool-cases, inl, inr,
}
use schedule_center.Base.Text.{Text, text_eq, text_eq_iff}
use schedule_center.Base.Pointers.{put}
use schedule_center.Json.{Json}
use schedule_center.Mysql.{Connector, Login}
use schedule_center.Phones
use schedule_center.Phones.{
  has_peer, Store, PhonePool, PhoneConnection, Ec, no_error, operation_aborted, other_error,
}
use schedule_center.Phones.Fresh.{NotIn, lookup-NotIn, put-Ok, lookup-put}
use schedule_center.Phones.Pool.{Ok, connection_of}
use schedule_center.Phones.Start.{Started, start-Started}
use schedule_center.Schedule
use schedule_center.Schedule.{SchePool}
use schedule_center.Schedule.Pool.{start-length}
use schedule_center.Server.{
  Server, pool_of, with_pool, start_phone_accept, start_schedule_accept, accept_phone,
  accept_schedule, opened_phone, opened_schedule, start_schedule, accepted_schedule,
  handle_phone_accept, handle_schedule_accept,
}
use schedule_center.Server.Accept.{
  Event, phone_connects, phone_aborts, schedule_connects, phone_fails, schedule_fails, IsShort,
  handle, Serving, IsFresh, Keeps, start_phone_accept-Serving, start_phone_accept-Keeps,
  start_schedule_accept-Serving, start_schedule_accept-Keeps,
}

module _ (c : Connector) (login : Login) (j : Json) (fresh : List ℕ → ℕ) where
  put_self : (s : Store) (p : ℕ) (x : PhoneConnection) → put s p x p ≡ x
  put_self s p x = ground arith

  -- The pool once the waiting object's socket is open, and after `pho_conn_pool::start`.
  started :
      (p : ℕ) (x : PhoneConnection) (s : PhonePool c login)
      → NotIn p s.connections
      → has_peer x ≡ true
      → length x.peer ≤ 500
      → Ok s
      → (s' : PhonePool c login) × (Phones.start c login p (record s { store = put s.store p x })
          ≡ some s')
        × Started p (record s { store = put s.store p x }) s'
  started p x s n opened short ok =
      let (s', run, st) =
        start-Started p (record s { store = put s.store p x }) (put-Ok p x s n ok)
          (record {
            opened = ap has_peer (put_self s.store p x) ∙ opened;
            short = rw (put_self s.store p x) short;
            absent = lookup-NotIn (put s.store p x) _ p s.connections n;
          }) in
      (s', run, st)

  handled_phone :
      (p : ℕ) (s : Server c login j fresh) (pool : PhonePool c login)
      → s.phone_acceptor ≡ true
      → s.new_phone_connection ≡ some p
      → Phones.start c login p (pool_of c login j fresh s.common) ≡ some pool
      → handle_phone_accept c login j fresh no_error s
        ≡ some (
            start_phone_accept c login j fresh
              (record s { common = with_pool c login j fresh pool s.common }))
  unfolding handle_phone_accept
  handled_phone p s pool opened e run = rw (opened, e) (rw run refl)

  accept_phone_lem :
      (p : ℕ) (peer : Text) (s : Server c login j fresh)
      → s.new_phone_connection ≡ some p
      → accept_phone c login j fresh peer s ≡ record s {
        common = record s.common {
          store =
              put s.common.store p
                (record (s.common.store p) { peer = peer; is_open = true; reset = false });
        };
      }
  unfolding accept_phone
  accept_phone_lem p peer s e = ap (λ o. opened_phone c login j fresh o peer s) e

  then_accepts :
      (s s2 : Server c login j fresh)
      → IsFresh c login j fresh
      → Keeps c login j fresh s s2
      → Keeps c login j fresh s (start_phone_accept c login j fresh s2)
  then_accepts s s2 new k =
      let k2 = start_phone_accept-Keeps c login j fresh s2 new in
      record {
        accounts = k2.accounts ∙ k.accounts;
        stopped = k2.stopped ∙ k.stopped;
        short_phones = λ short. k2.short_phones (k.short_phones short);
      }

  served_short :
      (p : ℕ) (x : PhoneConnection) (s s' : PhonePool c login) (ip : Text) (q : ℕ)
      → NotIn p s.connections
      → length x.peer ≤ 500
      → Started p (record s { store = put s.store p x }) s'
      → ((ip : Text) (q : ℕ) → connection_of s ip ≡ some q → length ip ≤ 500)
      → connection_of s' ip ≡ some q
      → length ip ≤ 500
  served_short p x s s' ip q n short st all hit =
      let own : (put s.store p x p).peer ≡ x.peer =
        ap (λ (y : PhoneConnection). y.peer) (put_self s.store p x) in
      elim (Bool-cases (text_eq x.peer ip)) [
        | inl same ↦ subst (λ t. length t ≤ 500) ((text_eq_iff x.peer ip).0 same) short
        | inr other ↦ all ip q (
            sym (lookup-put s.store p x ip s.connections n)
            ∙ sym (rw (own, other) at (st.served ip))
            ∙ hit)
      ]

  phone_connects-Serving :
      (peer : Text) (s : Server c login j fresh)
      → IsFresh c login j fresh
      → length peer ≤ 500
      → Serving c login j fresh s
      → (s' : Server c login j fresh) × (handle c login j fresh (phone_connects peer) s ≡ some s')
        × Serving c login j fresh s'
        × Keeps c login j fresh s s'
  phone_connects-Serving peer s new short h =
      let (p, e, n) = h.waiting in
      let x : PhoneConnection = record (s.common.store p) {
        peer = peer;
        is_open = true;
        reset = false;
      } in
      let s1 : Server c login j fresh = record s {
        common = record s.common { store = put s.common.store p x };
      } in
      let (pool, run, st) =
        started p x (pool_of c login j fresh s.common) n refl short h.phones_ok in
      let s2 : Server c login j fresh = record s1 {
        common = with_pool c login j fresh pool s1.common;
      } in
      (
        start_phone_accept c login j fresh s2,
        ap (handle_phone_accept c login j fresh no_error) (accept_phone_lem p peer s e)
            ∙ handled_phone p s1 pool h.open_acceptors.0 e run,
        start_phone_accept-Serving c login j fresh s2 new h.open_acceptors h.waiting_client st.ok
            h.one_client,
        then_accepts s s2 new (record {
          accounts = refl;
          stopped = refl;
          short_phones = λ all ip q hit.
              served_short p x (pool_of c login j fresh s.common) pool ip q n short st all hit;
        }),
      )

  accept_schedule_lem :
      (q : ℕ) (s : Server c login j fresh)
      → s.new_sche_connection ≡ some q
      → accept_schedule c login j fresh s ≡ opened_schedule c login j fresh (some q) s
  unfolding accept_schedule
  accept_schedule_lem q s e = ap (λ o. opened_schedule c login j fresh o s) e

  handled_schedule :
      (q : ℕ) (s : Server c login j fresh)
      → s.schedule_acceptor ≡ true
      → s.new_sche_connection ≡ some q
      → handle_schedule_accept c login j fresh no_error s
        ≡ some
            (start_schedule_accept c login j fresh (record s { sches = Schedule.start q s.sches }))
  unfolding handle_schedule_accept
  handled_schedule q s opened e =
      ap (λ t. if not t then some s else accepted_schedule c login j fresh no_error s) opened
      ∙ ap
          (λ o. start_schedule c login j fresh o s >>= λ s'.
            some (start_schedule_accept c login j fresh s'))
          e

  schedule_connects-Serving :
      (s : Server c login j fresh)
      → Serving c login j fresh s
      → (s' : Server c login j fresh) × (handle c login j fresh schedule_connects s ≡ some s')
        × Serving c login j fresh s'
        × Keeps c login j fresh s s'
  schedule_connects-Serving s h =
      let (q, e) = h.waiting_client in
      let sches1 : SchePool = record s.sches {
        store = put s.sches.store q (record (s.sches.store q) { is_open = true });
      } in
      let s1 : Server c login j fresh = record s { sches = Schedule.start q sches1 } in
      (
        start_schedule_accept c login j fresh s1,
        ap (handle_schedule_accept c login j fresh no_error) (accept_schedule_lem q s e)
            ∙ handled_schedule q (opened_schedule c login j fresh (some q) s) h.open_acceptors.1 e,
        start_schedule_accept-Serving c login j fresh s1 (record {
          open_acceptors = h.open_acceptors;
          waiting = h.waiting;
          waiting_client = (q, e);
          phones_ok = h.phones_ok;
          one_client = start-length q sches1 h.one_client;
        }),
        start_schedule_accept-Keeps c login j fresh s (Schedule.start q sches1),
      )

  pub handle-Serving :
      (event : Event) (s : Server c login j fresh)
      → IsFresh c login j fresh
      → IsShort event
      → Serving c login j fresh s
      → (s' : Server c login j fresh) × (handle c login j fresh event s ≡ some s')
        × Serving c login j fresh s'
        × Keeps c login j fresh s s'
  unfolding handle_phone_accept handle_schedule_accept
  handle-Serving (phone_connects peer) s new short h = phone_connects-Serving peer s new short h
  handle-Serving (phone_aborts peer) s new short h = absurd short
  handle-Serving schedule_connects s new short h = schedule_connects-Serving s h
  handle-Serving phone_fails s new short h = (
    start_phone_accept c login j fresh s,
    rw h.open_acceptors.0 refl,
    start_phone_accept-Serving c login j fresh s new h.open_acceptors h.waiting_client h.phones_ok
        h.one_client,
    start_phone_accept-Keeps c login j fresh s new,
  )
  handle-Serving schedule_fails s new short h = (
    start_schedule_accept c login j fresh s,
    rw h.open_acceptors.1 refl,
    start_schedule_accept-Serving c login j fresh s h,
    start_schedule_accept-Keeps c login j fresh s s.sches,
  )
