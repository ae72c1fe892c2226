-- ===== src/Phones/StopAll.antt =====
-- pho_conn_pool::stop_all (src/common/pho_conn_pool.cpp).
use schedule_center.Base.{
  ℕ, ◌≤◌, true, false, List, [], ◌∷◌, some, ◌≡◌, refl, ap, ◌∙◌, arith, All, length, is_some,
  if◌then◌else◌, All-map, subst, sym,
}
use schedule_center.Base.Text.{Text, text_eq}
use schedule_center.Base.Pointers.{put}
use schedule_center.Mysql.{Connector, Login}
use schedule_center.Mysql.Live.{IsLive}
use schedule_center.Devices.{get_status, device_status_offline}
use schedule_center.Devices.Status.{get_status-set_status}
use schedule_center.Phones.{PhoneConnection, Store, PhonePool, close_socket, stop_each, stop_all}
use schedule_center.Phones.Lists.{
  lookup, has_peer-open, AllOpen, DistinctPeers, SamePeers, lookup-SamePeers,
  DistinctPeers-SamePeers, put-SamePeers, put-AllOpen,
}
use schedule_center.Phones.Pool.{Ok, connection_of}

-- The addresses fit the query.
abbrev pub AllShort : Store → List ℕ → Type 0
AllShort s = All (λ p. length (s p).peer ≤ 500)

put-closed :
    (s : Store) (p q : ℕ)
    → (s q).is_open ≡ false
    → (put s p (record (s p) { is_open = false }) q).is_open ≡ false
put-closed s p q h = ground arith

lookup-status :
    (s : Store) (p : ℕ) (ip : Text) (l : List ℕ) (a b : ℕ)
    → (if is_some (lookup s ip (p ∷ l)) then a else b)
      ≡ (if is_some (lookup s ip l) then a else (if text_eq (s p).peer ip then a else b))
unfolding lookup
lookup-status s p ip l a b = ground arith

module _ {c : Connector} {login : Login} where
  -- What the loop does with these connections.
  record EachStopped (l : List ℕ) (s s' : PhonePool c login) : Type 0 where
    live : IsLive s'.devices.db
    closed : All (λ q. (s'.store q).is_open ≡ false) l
    stay_closed : (q : ℕ) → (s.store q).is_open ≡ false → (s'.store q).is_open ≡ false
    statuses :
        (ip : Text)
        → get_status c ip s'.devices ≡ (
            if is_some (lookup s.store ip l)
            then device_status_offline
            else get_status c ip s.devices)

  close_socket-open :
      (p : ℕ) (s : PhonePool c login)
      → (s.store p).is_open ≡ true
      → close_socket c login p s
        ≡ record s { store = put s.store p (record (s.store p) { is_open = false }) }
  unfolding close_socket
  close_socket-open p s h = rw h refl

  stop_each-EachStopped :
      (l : List ℕ) (s : PhonePool c login)
      → AllOpen s.store l
      → DistinctPeers s.store l
      → AllShort s.store l
      → IsLive s.devices.db
      → (s' : PhonePool c login) × (stop_each c login l s ≡ some s') × EachStopped l s s'
  unfolding stop_each lookup
  stop_each-EachStopped [] s opened apart short live =
      (s, refl, record { live = live; closed = tt; stay_closed = λ q h. h; statuses = λ ip. refl })
  stop_each-EachStopped (p ∷ l) s opened apart short live =
      let (d, set, live1, first) =
        get_status-set_status login (s.store p).peer device_status_offline s.devices live short.0 in
      let closed : PhoneConnection = record (s.store p) { is_open = false } in
      let st : Store = put s.store p closed in
      let peers : SamePeers s.store st = put-SamePeers s.store p closed refl in
      let s1 : PhonePool c login = record s { store = st; devices = d } in
      let (s2, run, each) =
        stop_each-EachStopped l s1 (put-AllOpen s.store p closed l apart.0 opened.1)
          (DistinctPeers-SamePeers s.store st l peers apart.1)
          (All-map _ _ (λ q h. subst (λ t. length t ≤ 500) (sym (peers q)) h) l short.1) live1 in
      (
        s2,
        rw opened.0 (
            rw set (
              ap (stop_each c login l) (
                close_socket-open p (record s { devices = d }) (has_peer-open (s.store p) opened.0))
              ∙ run)),
        record {
          live = each.live;
          closed = (each.stay_closed p (ground arith), each.closed);
          stay_closed = λ q h. each.stay_closed q (put-closed s.store p q h);
          statuses = λ ip.
              each.statuses ip
              ∙ ap (λ o. if is_some o then device_status_offline else get_status c ip d)
                  (lookup-SamePeers s.store st ip l peers)
              ∙ ap (λ t. if is_some (lookup s.store ip l) then device_status_offline else t)
                  (first ip)
              ∙ sym
                  (lookup-status s.store p ip l device_status_offline (get_status c ip s.devices));
        },
      )

  -- If every connection of the pool is open and not reset by its peer, no two have one address, the addresses are of at most 500
  -- bytes and the pointers of the database are live, then `stop_all` ends, empties the pool, closes each
  -- of its connections, and makes exactly the phones of the pool offline.
  pub stop_all_lem :
      (s : PhonePool c login)
      → Ok s
      → AllShort s.store s.connections
      → (s' : PhonePool c login) × (stop_all c login s ≡ some s')
        × (s'.connections ≡ [])
        × All (λ q. (s'.store q).is_open ≡ false) s.connections
        × ((ip : Text)
            → get_status c ip s'.devices ≡ (
                if is_some (connection_of s ip)
                then device_status_offline
                else get_status c ip s.devices))
  unfolding stop_all
  stop_all_lem s ok short =
      let (s', run, each) =
        stop_each-EachStopped s.connections s ok.open_all ok.distinct short ok.live in
      (record s' { connections = [] }, rw run refl, refl, each.closed, each.statuses)
