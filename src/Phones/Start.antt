-- ===== src/Phones/Start.antt =====
-- pho_conn_pool::start (src/common/pho_conn_pool.cpp) for a phone with or without an earlier
-- connection.
use schedule_center.Base.{ℕ, true, false, List, Option, none, some, ◌≡◌, refl, if◌then◌else◌, arith}
use schedule_center.Base.Text.{Text, text_eq, text_eq_refl}
use schedule_center.Mysql.{Connector, Login}
use schedule_center.Devices.{get_status, device_status_online_idle}
use schedule_center.Devices.Status.{get_status-set_status}
use schedule_center.Base.Pointers.{put, insert_ptr}
use schedule_center.Phones.{PhoneConnection, Store, PhonePool, start_reading, start}
use schedule_center.Phones.Lists.{
  Absent, find_connection-lookup, Absent-lookup, lookup-insert_ptr, AllOpen-insert_ptr,
  DistinctPeers-insert_ptr, SamePeers, lookup-SamePeers, DistinctPeers-SamePeers, put-SamePeers,
}
use schedule_center.Phones.Pool.{Ok, connection_of, Cleared, IsNew, differ, stop_found-Cleared}

-- The connection, if there is one, is closed.
abbrev pub IsClosed : Store → Option ℕ → Type 0
IsClosed s none = Unit
IsClosed s (some q) = (s q).is_open ≡ false

replaced-IsClosed :
    (o : Option ℕ) (s : Store) → ((q : ℕ) → o ≡ some q → (s q).is_open ≡ false) → IsClosed s o
replaced-IsClosed none s h = tt
replaced-IsClosed (some q) s h = h q refl

module _ {c : Connector} {login : Login} where
  -- What `start` does with a new connection.
  pub record Started (p : ℕ) (s s' : PhonePool c login) : Type 0 where
    pub ok : Ok s'
    pub served :
        (ip : Text)
        → connection_of s' ip ≡ (if text_eq (s.store p).peer ip then some p else connection_of s ip)
    pub statuses :
        (ip : Text)
        → get_status c ip s'.devices ≡ (
            if text_eq (s.store p).peer ip
            then device_status_online_idle
            else get_status c ip s.devices)
    pub replaced : IsClosed s'.store (connection_of s (s.store p).peer)

  Cleared-Absent :
      (p : ℕ) (s s1 : PhonePool c login)
      → Cleared p s s1
      → Absent s1.store (s1.store p).peer s1.connections
  Cleared-Absent p s s1 k =
      Absent-lookup s1.store (s1.store p).peer s1.connections
        (rw k.same (ground (arith, k.served (s.store p).peer, text_eq_refl (s.store p).peer)))

  -- If every connection of the pool is open and not reset by its peer, no two have one address and
  -- the pointers of the database are live, then `start` of a new such connection ends, keeps all
  -- this, closes the earlier connection of the phone, serves its address by the new one and every other address as
  -- before, and makes this phone's status idle and no other's.
  pub start-Started :
      (p : ℕ) (s : PhonePool c login)
      → Ok s
      → IsNew p s
      → (s' : PhonePool c login) × (start c login p s ≡ some s') × Started p s s'
  unfolding start start_reading
  start-Started p s ok new =
      let ip : Text = (s.store p).peer in
      let (s1, run, k) = stop_found-Cleared p s (connection_of s ip) ok new refl in
      let (d, set, live, statuses) =
        get_status-set_status login ip device_status_online_idle s1.devices k.ok.live new.short in
      let x : PhoneConnection = record (s1.store p) { reading = true } in
      let st : Store = put s1.store p x in
      let peers : SamePeers s1.store st = put-SamePeers s1.store p x refl in
      let absent = Cleared-Absent p s s1 k in
      let l : List ℕ = insert_ptr p s1.connections in
      (
        record { connections = l; store = st; devices = d },
        rw new.opened (
            rw (find_connection-lookup s.store ip s.connections ok.open_all)
              (rw run (rw set refl))),
        record {
          ok = record {
            open_all =
                AllOpen-insert_ptr s1.store p x s1.connections absent (rw k.same new.opened)
                  k.ok.open_all;
            distinct =
                DistinctPeers-SamePeers s1.store st l peers
                  (DistinctPeers-insert_ptr s1.store p s1.connections absent k.ok.distinct);
            live = live;
          };
          served = λ j. ground (
            arith,
            lookup-SamePeers s1.store st j l peers,
            lookup-insert_ptr s1.store p j s1.connections absent,
            k.served j,
            k.same,
          );
          statuses = λ j. ground (arith, statuses j, k.statuses j);
          replaced =
              replaced-IsClosed (connection_of s ip) st
                λ q hit. ground (arith, k.replaced q hit, differ q hit new.absent);
        },
      )
