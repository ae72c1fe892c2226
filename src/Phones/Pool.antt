-- ===== src/Phones/Pool.antt =====
-- pho_conn_pool::stop (src/common/pho_conn_pool.cpp), and the pool seen as a map from addresses to
-- connections.
use schedule_center.Base.{
  ℕ, ◌≤◌, true, false, List, Option, none, some, ◌==◌, ◌≡◌, ◌≢◌, refl, ap, ◌∙◌, if◌then◌else◌,
  arith, length,
}
use schedule_center.Base.Text.{Text, text_eq, text_eq_iff}
use schedule_center.Mysql.{Connector, Login}
use schedule_center.Mysql.Live.{IsLive}
use schedule_center.Devices.{get_status, device_status_offline}
use schedule_center.Devices.Status.{get_status-set_status}
use schedule_center.Base.Pointers.{put, erase_ptr}
use schedule_center.Phones.{
  PhoneConnection, Store, has_peer, PhonePool, close_socket, stop, stop_found,
}
use schedule_center.Phones.Lists.{
  lookup, has_peer-open, AllOpen, DistinctPeers, lookup-erase_ptr, lookup-peer, lookup-open,
  DistinctPeers-erase_ptr, AllOpen-erase_ptr, SamePeers, lookup-SamePeers, DistinctPeers-SamePeers,
  put-SamePeers,
}

pub differ : {o : Option ℕ} {p : ℕ} (q : ℕ) → o ≡ some q → o ≢ some p → (q == p) ≡ false
differ q e absent = ground arith

module _ {c : Connector} {login : Login} where
  pub record Ok (s : PhonePool c login) : Type 0 where
    pub open_all : AllOpen s.store s.connections
    pub distinct : DistinctPeers s.store s.connections
    pub live : IsLive s.devices.db

  -- The abstract view: which connection serves an address.
  abbrev pub connection_of : PhonePool c login → Text → Option ℕ
  connection_of s ip = lookup s.store ip s.connections

  close_socket-open :
      (p : ℕ) (s : PhonePool c login)
      → (s.store p).is_open ≡ true
      → close_socket c login p s
        ≡ record s { store = put s.store p (record (s.store p) { is_open = false }) }
  unfolding close_socket
  close_socket-open p s h = ground arith

  -- What a call of `stop` for a connection of the pool does.
  pub record Stopped (p : ℕ) (s s' : PhonePool c login) : Type 0 where
    pub ok : Ok s'
    pub peers : SamePeers s.store s'.store
    pub members : s'.connections ≡ erase_ptr p s.connections
    pub objects :
        (q : ℕ)
        → s'.store q ≡ (if p == q then record (s.store p) { is_open = false } else s.store q)
    pub served :
        (ip : Text)
        → connection_of s' ip ≡ (if text_eq (s.store p).peer ip then none else connection_of s ip)
    pub statuses :
        (ip : Text)
        → get_status c ip s'.devices ≡ (
            if text_eq (s.store p).peer ip
            then device_status_offline
            else get_status c ip s.devices)

  -- If every connection of the pool is open and not reset by its peer, no two have one address and
  -- the pointers of the database are live, then `stop` of a connection of the pool, with an address of at most 500
  -- bytes, ends, keeps all this, closes this connection and changes no other object, takes its phone
  -- out of the pool and no other phone, and makes this phone's status offline and no other's.
  pub stop-Stopped :
      (p : ℕ) (s : PhonePool c login)
      → Ok s
      → connection_of s (s.store p).peer ≡ some p
      → has_peer (s.store p) ≡ true
      → length (s.store p).peer ≤ 500
      → (s' : PhonePool c login) × (stop c login p s ≡ some s') × Stopped p s s'
  unfolding stop
  stop-Stopped p s ok mine opened short =
      let (d, set, live, statuses) =
        get_status-set_status login (s.store p).peer device_status_offline s.devices ok.live
          short in
      let closed : PhoneConnection = record (s.store p) { is_open = false } in
      let st : Store = put s.store p closed in
      let peers : SamePeers s.store st = put-SamePeers s.store p closed refl in
      let l : List ℕ = erase_ptr p s.connections in
      (
        record { connections = l; store = st; devices = d },
        rw opened (
            rw set (
              ap some (
                close_socket-open p (record { connections = l; store = s.store; devices = d })
                  (has_peer-open (s.store p) opened)))),
        record {
          ok = record {
            open_all =
                AllOpen-erase_ptr s.store (s.store p).peer p closed s.connections ok.distinct mine
                  ok.open_all;
            distinct =
                DistinctPeers-SamePeers s.store st l peers
                  (DistinctPeers-erase_ptr s.store p s.connections ok.distinct);
            live = live;
          };
          peers = peers;
          members = refl;
          objects = λ q. refl;
          served = λ ip.
              lookup-SamePeers s.store st ip l peers
              ∙ lookup-erase_ptr s.store (s.store p).peer ip p s.connections ok.distinct mine;
          statuses = statuses;
        },
      )

  -- The pool once an earlier connection of the same phone is gone.
  pub record Cleared (p : ℕ) (s s' : PhonePool c login) : Type 0 where
    pub ok : Ok s'
    pub same : s'.store p ≡ s.store p
    pub served :
        (ip : Text)
        → connection_of s' ip ≡ (if text_eq (s.store p).peer ip then none else connection_of s ip)
    pub statuses :
        (ip : Text)
        → text_eq (s.store p).peer ip ≡ false
        → get_status c ip s'.devices ≡ get_status c ip s.devices
    pub replaced :
        (q : ℕ) → connection_of s (s.store p).peer ≡ some q → (s'.store q).is_open ≡ false

  -- `p` is a new object: open, not reset, with an address that fits, and not the one in the pool.
  pub record IsNew (p : ℕ) (s : PhonePool c login) : Type 0 where
    pub opened : has_peer (s.store p) ≡ true
    pub short : length (s.store p).peer ≤ 500
    pub absent : connection_of s (s.store p).peer ≢ some p

  pub stop_found-Cleared :
      (p : ℕ) (s : PhonePool c login) (o : Option ℕ)
      → Ok s
      → IsNew p s
      → connection_of s (s.store p).peer ≡ o
      → (s' : PhonePool c login) × (stop_found c login o s ≡ some s') × Cleared p s s'
  stop_found-Cleared p s none ok new e = (
    s,
    refl,
    record {
      ok = ok;
      same = refl;
      served = λ ip. ground (arith, text_eq_iff (s.store p).peer ip);
      statuses = λ ip other. refl;
      replaced = λ q hit. cc;
    },
  )
  stop_found-Cleared p s (some q) ok new e =
      let same_peer = lookup-peer s.store (s.store p).peer s.connections q e in
      let (s', run, gone) =
        stop-Stopped q s ok (rw same_peer e)
          (lookup-open s.store (s.store p).peer s.connections q ok.open_all e)
          (rw same_peer new.short) in
      (
        s',
        run,
        record {
          ok = gone.ok;
          same = ground (arith, gone.objects p, differ q e new.absent);
          served = λ ip. rw same_peer at (gone.served ip);
          statuses = λ ip other. ground (arith, gone.statuses ip);
          replaced = λ r hit. ground (arith, gone.objects q);
        },
      )
