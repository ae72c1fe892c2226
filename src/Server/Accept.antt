-- ===== src/Server/Accept.antt =====
-- The acceptors of main_task (src/common/main_task.cpp: handle_phone_accept and handle_schedule_accept)
-- over the two pools.
use schedule_center.Base.{
  ℕ, ◌≤◌, true, List, [], ◌∷◌, ◌++◌, Option, none, some, map, ◌≡◌, refl, ◌∙◌, length, sym,
}
use schedule_center.Base.Text.{Text}
use schedule_center.Json.{Json}
use schedule_center.Mysql.{Connector, Login}
use schedule_center.Phones.{no_error, other_error}
use schedule_center.Phones.Fresh.{NotIn, put-Ok, lookup-put}
use schedule_center.Phones.Pool.{Ok, connection_of}
use schedule_center.Schedule.{SchePool}
use schedule_center.Server.{
  Server, pool_of, in_use, phones_in_use, start_phone_accept, start_schedule_accept, accept_phone,
  aborted_phone, accept_schedule, handle_phone_accept, handle_schedule_accept,
}

NotIn-append : (p : ℕ) (xs ys : List ℕ) → NotIn p (xs ++ ys) → NotIn p xs
NotIn-append p [] ys h = tt
NotIn-append p (x ∷ xs) ys h = (h.0, NotIn-append p xs ys h.1)

NotIn-in_use : (p : ℕ) (o : Option ℕ) (l : List ℕ) → NotIn p (in_use o l) → NotIn p l
NotIn-in_use p none l h = h
NotIn-in_use p (some q) l h = h.1

-- What the environment does at the acceptors.
pub data Event : Type 0 where
  phone_connects : Text → Event
  -- The phone has reset the connection when the handler runs.
  phone_aborts : Text → Event
  schedule_connects : Event
  phone_fails schedule_fails : Event

-- The addresses of the phones that connect fit the query, and none has reset its connection.
abbrev pub IsShort : Event → Type 0
IsShort (phone_connects peer) = length peer ≤ 500
IsShort (phone_aborts peer) = ⊥
IsShort _ = Unit

module _ (c : Connector) (login : Login) (j : Json) (fresh : List ℕ → ℕ) where
  abbrev pub handle : Event → Server c login j fresh → Option (Server c login j fresh)
  handle (phone_connects peer) s =
      handle_phone_accept c login j fresh no_error (accept_phone c login j fresh peer s)
  handle (phone_aborts peer) s =
      handle_phone_accept c login j fresh no_error
        (aborted_phone c login j fresh (accept_phone c login j fresh peer s))
  handle schedule_connects s =
      handle_schedule_accept c login j fresh no_error (accept_schedule c login j fresh s)
  handle phone_fails s = handle_phone_accept c login j fresh other_error s
  handle schedule_fails s = handle_schedule_accept c login j fresh other_error s

  -- Both acceptors wait with an object of their own, and the pools are well-formed.
  pub record Serving (s : Server c login j fresh) : Type 0 where
    pub open_acceptors : (s.phone_acceptor ≡ true) × (s.schedule_acceptor ≡ true)
    pub waiting : (p : ℕ) × (s.new_phone_connection ≡ some p) × NotIn p s.common.connections
    pub waiting_client : (q : ℕ) × (s.new_sche_connection ≡ some q)
    pub phones_ok : Ok (pool_of c login j fresh s.common)
    pub one_client : length s.sches.connections ≤ 1

  -- `new` gives an address that is not in use.
  abbrev pub IsFresh : Type 0
  IsFresh = (l : List ℕ) → NotIn (fresh l) l

  -- The addresses of the pool's phones fit the query.
  abbrev pub ShortPhones : Server c login j fresh → Type 0
  ShortPhones s =
      (ip : Text) (q : ℕ)
      → connection_of (pool_of c login j fresh s.common) ip ≡ some q
      → length ip ≤ 500

  -- What the acceptors leave as it is.
  pub record Keeps (s s' : Server c login j fresh) : Type 0 where
    pub accounts : s'.common.shared.accounts ≡ s.common.shared.accounts
    pub stopped : s'.stopped ≡ s.stopped
    pub short_phones : ShortPhones s → ShortPhones s'

  pub start_phone_accept-Serving :
      (s : Server c login j fresh)
      → IsFresh
      → (s.phone_acceptor ≡ true) × (s.schedule_acceptor ≡ true)
      → (q : ℕ) × (s.new_sche_connection ≡ some q)
      → Ok (pool_of c login j fresh s.common)
      → length s.sches.connections ≤ 1
      → Serving (start_phone_accept c login j fresh s)
  unfolding start_phone_accept
  start_phone_accept-Serving s new opened client ok one =
      let apart =
        NotIn-append _ s.common.connections (map (λ t. t.pconn) s.sessions)
          (NotIn-in_use _ s.new_phone_connection _ (new (phones_in_use c login j fresh s))) in
      record {
        open_acceptors = opened;
        waiting = (_, refl, apart);
        waiting_client = client;
        phones_ok = put-Ok _ _ (pool_of c login j fresh s.common) apart ok;
        one_client = one;
      }

  pub start_phone_accept-Keeps :
      (s : Server c login j fresh) → IsFresh → Keeps s (start_phone_accept c login j fresh s)
  unfolding start_phone_accept
  start_phone_accept-Keeps s new =
      let apart =
        NotIn-append _ s.common.connections (map (λ t. t.pconn) s.sessions)
          (NotIn-in_use _ s.new_phone_connection _ (new (phones_in_use c login j fresh s))) in
      record {
        accounts = refl;
        stopped = refl;
        short_phones = λ short ip q e.
            short ip q (sym (lookup-put s.common.store _ _ ip s.common.connections apart) ∙ e);
      }

  pub start_schedule_accept-Keeps :
      (s : Server c login j fresh) (sches : SchePool)
      → Keeps s (start_schedule_accept c login j fresh (record s { sches = sches }))
  unfolding start_schedule_accept
  start_schedule_accept-Keeps s sches = record {
    accounts = refl;
    stopped = refl;
    short_phones = λ short. short;
  }

  pub start_schedule_accept-Serving :
      (s : Server c login j fresh) → Serving s → Serving (start_schedule_accept c login j fresh s)
  unfolding start_schedule_accept
  start_schedule_accept-Serving s h = record {
    open_acceptors = h.open_acceptors;
    waiting = h.waiting;
    waiting_client = (_, refl);
    phones_ok = h.phones_ok;
    one_client = h.one_client;
  }
