-- ===== src/Server/Loop/Phone.antt =====
-- The read handlers of the phones and of the client, on the loop (src/common/phone_connection.cpp and
-- schedule_connection.cpp: handle_read).
use schedule_center.Base.{
  ℕ, zero, suc, true, List, [], ◌∷◌, Option, none, some, ◌≡◌, refl, sym, ap, subst, ◌∙◌, All, arith,
  if◌then◌else◌, ◌>>=◌, some-injective,
}
use schedule_center.Base.Text.{Text, text_eq_iff, text_eq_refl}
use schedule_center.Base.Pointers.{put}
use schedule_center.Boost.{Boost}
use schedule_center.Json.{Json}
use schedule_center.Mysql.{Connector, Login}
use schedule_center.Phones
use schedule_center.Phones.{
  has_peer, Store, PhonePool, Ec, no_error, operation_aborted, other_error, start_reading, stop,
}
use schedule_center.Phones.Lists.{
  has_peer-open, lookup, Absent, AllOpen, DistinctPeers, SamePeers, All-erase_ptr, lookup-SamePeers,
  DistinctPeers-SamePeers, put-SamePeers,
}
use schedule_center.Phones.Pool.{Ok, connection_of, stop-Stopped}
use schedule_center.Phones.Fresh.{NotIn}
use schedule_center.Server.{Server, pool_of, with_pool}
use schedule_center.Server.Loop.{nth, IsQuiet, signal, read_phone, Going}

-- Each connection of the list serves its own address.
abbrev Serves : Store → List ℕ → List ℕ → Type 0
Serves s all = All (λ p. lookup s (s p).peer all ≡ some p)

Serves-cons :
    (s : Store) (p : ℕ) (all l : List ℕ)
    → Absent s (s p).peer l
    → Serves s all l
    → Serves s (p ∷ all) l
unfolding lookup
Serves-cons s p all [] a h = tt
Serves-cons s p all (q ∷ l) a h = (
  ground (arith, text_eq_iff (s p).peer (s q).peer, text_eq_iff (s q).peer (s p).peer),
  Serves-cons s p all l a.1 h.1,
)

pub DistinctPeers-Serves : (s : Store) (l : List ℕ) → DistinctPeers s l → Serves s l l
unfolding lookup
DistinctPeers-Serves s [] d = tt
DistinctPeers-Serves s (p ∷ l) d =
    (rw (text_eq_refl (s p).peer) refl, Serves-cons s p l l d.0 (DistinctPeers-Serves s l d.1))

All-nth {κ} : (P : ℕ → Type κ) (n : ℕ) (l : List ℕ) (p : ℕ) → nth n l ≡ some p → All P l → P p
All-nth P n [] p e h = cc
All-nth P zero (q ∷ l) p e h = subst P (some-injective _ _ e) h.0
All-nth P (suc n) (q ∷ l) p e h = All-nth P n l p e h.1

-- A new mark on an object changes neither its address nor whether it is open.
put-AllOpen-reading :
    (s : Store) (p : ℕ) (l : List ℕ)
    → AllOpen s l
    → AllOpen (put s p (record (s p) { reading = true })) l
put-AllOpen-reading s p [] h = tt
put-AllOpen-reading s p (q ∷ l) h = (ground arith, put-AllOpen-reading s p l h.1)

module _ (b : Boost) (c : Connector) (login : Login) (j : Json) (fresh : List ℕ → ℕ) where
  -- The server with this pool of phones.
  abbrev in_pool : PhonePool c login → Server c login j fresh → Server c login j fresh
  in_pool pool s = record s { common = with_pool c login j fresh pool s.common }

  in_pool-Going :
      (pool : PhonePool c login) (s : Server c login j fresh)
      → ((p : ℕ) → NotIn p s.common.connections → NotIn p pool.connections)
      → Ok pool
      → ((ip : Text) (q : ℕ)
          → connection_of pool ip ≡ some q
          → connection_of (pool_of c login j fresh s.common) ip ≡ some q)
      → Going c login j fresh s
      → Going c login j fresh (in_pool pool s)
  in_pool-Going pool s members ok fewer g =
      let (p, e, n) = g.serving.waiting in
      record {
        going = g.going;
        serving = record {
          open_acceptors = g.serving.open_acceptors;
          waiting = (p, e, members p n);
          waiting_client = g.serving.waiting_client;
          phones_ok = ok;
          one_client = g.serving.one_client;
        };
        short_phones = λ ip q hit. g.short_phones ip q (fewer ip q hit);
        accounts_live = g.accounts_live;
        short_names = g.short_names;
      }

  handle_read-stop :
      (p : ℕ) (s pool : PhonePool c login)
      → (s.store p).is_open ≡ true
      → stop c login p s ≡ some pool
      → Phones.handle_read c login p other_error [] s ≡ some (none, pool)
  unfolding Phones.handle_read
  handle_read-stop p s pool opened run =
      ap (λ t. if t then (stop c login p s >>= λ s'. some (none, s')) else some (none, s)) opened
      ∙ ap (λ o. o >>= λ s'. some (none, s')) run

  -- A phone of the pool leaves.
  leaves-Going :
      (p : ℕ) (s : Server c login j fresh)
      → Going c login j fresh s
      → has_peer (s.common.store p) ≡ true
      → connection_of (pool_of c login j fresh s.common) (s.common.store p).peer ≡ some p
      → (s' : Server c login j fresh) × (read_phone b c login j fresh (some p) other_error [] s
          ≡ some s')
        × Going c login j fresh s'
  leaves-Going p s g opened mine =
      let (pool, run, st) =
        stop-Stopped p (pool_of c login j fresh s.common) g.serving.phones_ok mine opened
          (g.short_phones _ p mine) in
      (
        in_pool pool s,
        ap (λ o. o >>= λ r. signal b c login j fresh r.0 p (in_pool r.1 s))
            (handle_read-stop p (pool_of c login j fresh s.common) pool
              (has_peer-open (s.common.store p) opened) run),
        in_pool-Going pool s
            (λ q n. subst (NotIn q) (sym st.members) (All-erase_ptr _ p s.common.connections n))
            st.ok (λ ip q hit. ground (arith, st.served ip)) g,
      )

  -- A phone of the pool sends a message that is not signalled.
  sends-Going :
      (p : ℕ) (buffer : Text) (s : Server c login j fresh)
      → Going c login j fresh s
      → IsQuiet no_error buffer
      → (s' : Server c login j fresh) × (read_phone b c login j fresh (some p) no_error buffer s
          ≡ some s')
        × Going c login j fresh s'
  unfolding Phones.handle_read start_reading
  sends-Going p buffer s g (m, whole, quiet) =
      let pool = start_reading c login p (pool_of c login j fresh s.common) in
      let peers : SamePeers s.common.store pool.store = put-SamePeers s.common.store p _ refl in
      (
        in_pool pool s,
        rw (whole, quiet) refl,
        in_pool-Going pool s (λ q n. n)
            (record {
              open_all =
                  put-AllOpen-reading s.common.store p s.common.connections
                    g.serving.phones_ok.open_all;
              distinct =
                  DistinctPeers-SamePeers s.common.store pool.store s.common.connections peers
                    g.serving.phones_ok.distinct;
              live = g.serving.phones_ok.live;
            })
            (λ ip q hit.
              sym (lookup-SamePeers s.common.store pool.store ip s.common.connections peers) ∙ hit)
            g,
      )

  pub reads-Going :
      (o : Option ℕ) (n : ℕ) (e : Ec) (buffer : Text) (s : Server c login j fresh)
      → nth n s.common.connections ≡ o
      → IsQuiet e buffer
      → Going c login j fresh s
      → (s' : Server c login j fresh) × (read_phone b c login j fresh o e buffer s ≡ some s')
        × Going c login j fresh s'
  unfolding Phones.handle_read
  reads-Going none n e buffer s at quiet g = (s, refl, g)
  reads-Going (some p) n no_error buffer s at quiet g = sends-Going p buffer s g quiet
  reads-Going (some p) n operation_aborted buffer s at quiet g = (s, refl, g)
  reads-Going (some p) n other_error buffer s at quiet g =
      leaves-Going p s g (All-nth _ n s.common.connections p at g.serving.phones_ok.open_all) (
        All-nth _ n s.common.connections p at
          (DistinctPeers-Serves s.common.store s.common.connections g.serving.phones_ok.distinct))
