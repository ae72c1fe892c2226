-- ===== src/Server/Loop/Client.antt =====
-- The read handler of the client, on the loop (src/common/schedule_connection.cpp: handle_read).
use schedule_center.Base.{
  ℕ, ◌≤◌, Bool, true, false, not, ◌||◌, ◌&&◌, List, Option, none, some, is_some, ◌==◌, ◌≡◌, refl,
  ap, sym, subst, ◌∙◌, arith, length, if◌then◌else◌, ◌>>=◌, inl, inr,
}
use schedule_center.Base.Text.{Text, codes, c_str}
use schedule_center.Boost.{Boost}
use schedule_center.Json.{Json, TasksMgr}
use schedule_center.Mysql.{Connector, Login}
use schedule_center.Phones.{Ec, no_error, operation_aborted, other_error}
use schedule_center.Protocol.{cmd_sche_wx_vote, cmd_sche_wx_get_result}
use schedule_center.Schedule
use schedule_center.Schedule.{
  SchePool, Ends, read_failed, run_command, on_read, settle, start_reading, read_frame,
}
use schedule_center.Schedule.Pool.{stop-length}
use schedule_center.Sessions.{returns}
use schedule_center.Server.{Server}
use schedule_center.Server.Loop.{IsRead, IsOrder, client_read, read_client, Going}

read_failed-length :
    (p : ℕ) (s : SchePool) → length s.connections ≤ 1 → length (read_failed p s).connections ≤ 1
read_failed-length p s h = ground (arith, stop-length p s)

lacks : (a b : Bool) → (a && b) ≡ false → (not a || not b) ≡ true
lacks a b h = ground arith

module _ (j : Json) (tm : TasksMgr) where
  abbrev NoEscape : Ends tm.State → Type 0
  NoEscape Schedule.escapes = ⊥
  NoEscape (Schedule.returns st r) = Unit

  NoEscape-if :
      (b : Bool) (x y : Ends tm.State) → NoEscape x → NoEscape y → NoEscape (if b then x else y)
  NoEscape-if true x y h k = h
  NoEscape-if false x y h k = k

  run_command-NoEscape :
      (cmd : ℕ) (id : Option ℕ) (text : Text) (st : tm.State)
      → is_some id ≡ true
      → NoEscape (run_command j tm cmd id text true st)
  run_command-NoEscape cmd none text st e = absurd cc
  run_command-NoEscape cmd (some id) text st e =
      NoEscape-if (cmd == cmd_sche_wx_vote) _ _ tt
        (NoEscape-if (cmd == cmd_sche_wx_get_result) _ _ tt tt)

  commands-NoEscape :
      (c : Option ℕ) (id : Option ℕ) (text : Text) (st : tm.State)
      → is_some c ≡ true
      → is_some id ≡ true
      → NoEscape
          (elim c [ none ↦ Schedule.escapes | some cmd ↦ run_command j tm cmd id text true st ])
  commands-NoEscape none id text st e e' = absurd cc
  commands-NoEscape (some cmd) id text st e e' = run_command-NoEscape cmd id text st e'

  -- What `on_read` does with both members there.
  abbrev commands : j.Ptree → Text → tm.State → Ends tm.State
  commands pt text st = elim (j.get_int pt (codes "task_cmd")) [
    | none ↦ Schedule.escapes
    | some cmd ↦ run_command j tm cmd (j.get_int pt (codes "task_id")) text true st
  ]

  on_read-none :
      (text : Text) (st : tm.State)
      → j.read_json (c_str text) ≡ none
      → on_read j tm text true st ≡ Schedule.returns st none
  unfolding on_read
  on_read-none text st e = rw (on_read, e) refl

  on_read-some :
      (text : Text) (st : tm.State) (pt : j.Ptree)
      → j.read_json (c_str text) ≡ some pt
      → on_read j tm text true st ≡ (
          if not (j.has pt (codes "task_cmd")) || not (j.has pt (codes "task_id"))
          then Schedule.returns st none
          else commands pt text st)
  unfolding on_read
  on_read-some text st pt e = rw (on_read, e) refl

  on_read-NoEscape :
      (text : Text) (st : tm.State) (o : Option j.Ptree)
      → j.read_json (c_str text) ≡ o
      → IsRead j o
      → NoEscape (on_read j tm text true st)
  on_read-NoEscape text st none e h = subst NoEscape (sym (on_read-none text st e)) tt
  on_read-NoEscape text st (some pt) e (inl missing) =
      subst NoEscape
        (sym (
          on_read-some text st pt e
          ∙ ap (λ x. if x then Schedule.returns st none else commands pt text st)
              (lacks _ _ missing)))
        tt
  on_read-NoEscape text st (some pt) e (inr (cmd, id)) =
      subst NoEscape (sym (on_read-some text st pt e)) (
        NoEscape-if (not (j.has pt (codes "task_cmd")) || not (j.has pt (codes "task_id"))) _ _ tt (
          commands-NoEscape (j.get_int pt (codes "task_cmd")) (j.get_int pt (codes "task_id")) text
            st cmd id))

  settle-length :
      (p : ℕ) (s : SchePool) (e : Ends tm.State)
      → length s.connections ≤ 1
      → NoEscape e
      → (s' : SchePool) × (st : tm.State) × (r : Option Text) × (settle j tm p s e
          ≡ some (s', Schedule.returns st r))
        × (length s'.connections ≤ 1)
  unfolding start_reading
  settle-length p s Schedule.escapes one h = absurd h
  settle-length p s (Schedule.returns st r) one h = (start_reading p s, st, r, refl, one)

  handle_read-length :
      (p : ℕ) (e : Ec) (buffer : Text) (wrote : Bool) (s : SchePool) (st : tm.State)
      → length s.connections ≤ 1
      → IsOrder j e buffer wrote
      → (s' : SchePool) × (st' : tm.State) × (r : Option Text) × (Schedule.handle_read j tm p e
            buffer wrote s st
          ≡ some (s', Schedule.returns st' r))
        × (length s'.connections ≤ 1)
  unfolding Schedule.handle_read
  handle_read-length p no_error buffer wrote s st one (text, framed, read, writes) =
      let (s', st', r, run, one') =
        settle-length p s (on_read j tm text true st) one (on_read-NoEscape text st _ refl read) in
      (
        s',
        st',
        r,
        ap (λ o. o >>= λ text. settle j tm p s (on_read j tm text wrote st)) framed
            ∙ ap (λ w. settle j tm p s (on_read j tm text w st)) writes
            ∙ run,
        one',
      )
  handle_read-length p operation_aborted buffer wrote s st one h = (s, st, none, refl, one)
  handle_read-length p other_error buffer wrote s st one h =
      (read_failed p s, st, none, refl, read_failed-length p s one)

module _ (b : Boost) (c : Connector) (login : Login) (j : Json) (tm : TasksMgr)
    (fresh : List ℕ → ℕ) where
  pub read_client-Going :
      (o : Option ℕ) (e : Ec) (buffer : Text) (wrote : Bool) (s : Server c login j fresh)
      (st : tm.State)
      → IsOrder j e buffer wrote
      → Going c login j fresh s
      → (s' : Server c login j fresh) × (st' : tm.State) × (read_client b c login j tm fresh o e
            buffer wrote s st
          ≡ some (returns (s', st')))
        × Going c login j fresh s'
  read_client-Going none e buffer wrote s st usual g = (s, st, refl, g)
  read_client-Going (some p) e buffer wrote s st usual g =
      let (pool, st', r, run, one) =
        handle_read-length j tm p e buffer wrote s.sches st g.serving.one_client usual in
      (
        record s { sches = pool },
        st',
        ap (λ o. o >>= λ r. some (client_read b c login j tm fresh r s)) run,
        record {
          going = g.going;
          serving = record {
            open_acceptors = g.serving.open_acceptors;
            waiting = g.serving.waiting;
            waiting_client = g.serving.waiting_client;
            phones_ok = g.serving.phones_ok;
            one_client = one;
          };
          short_phones = g.short_phones;
          accounts_live = g.accounts_live;
          short_names = g.short_names;
        },
      )
