-- ===== src/Mysql/Live.antt =====
-- Commands over `con` and `stmt`, and whether these pointers are set.
use schedule_center.Base.{ℕ, Bool, true, false, Option, none, some, is_some, ◌≡◌, refl, arith}
use schedule_center.Base.Text.{Text}
use schedule_center.Mysql
use schedule_center.Mysql.{
  Outcome, returned, thrown, Connector, Db, Sql, pure, ◌>>=◌, try_catch, call, con_ptr, stmt_ptr,
  set_con, set_stmt, close_con, close_stmt, execute_update,
}

module _ {c : Connector} where
  -- Both pointers are set.
  abbrev pub IsLive : Db c → Type 0
  IsLive d = (is_some d.con ≡ true) × (is_some d.stmt ≡ true)

  abbrev pub EndsLive : {A : Type 0} → Option (Outcome A × Db c) → Type 0
  EndsLive none = ⊥
  EndsLive (some (_, d)) = IsLive d

  -- From live pointers the command runs to its end, by return or exception, and they stay live.
  abbrev pub KeepsLive : {A : Type 0} → Sql c A → Type 0
  KeepsLive m = (d : Db c) → IsLive d → EndsLive (m d)

  continue-EndsLive :
      {A B : Type 0} (r : Option (Outcome A × Db c)) (f : A → Sql c B)
      → EndsLive r
      → ((a : A) → KeepsLive (f a))
      → EndsLive {A = B} (elim r [
        | none ↦ none
        | some (returned a, d') ↦ f a d'
        | some (thrown, d') ↦ some (thrown, d')
      ])
  continue-EndsLive none f h k = h
  continue-EndsLive (some (returned a, d)) f h k = k a d h
  continue-EndsLive (some (thrown, d)) f h k = h

  handle-EndsLive :
      {A : Type 0} (r : Option (Outcome A × Db c)) (g : Sql c A)
      → EndsLive r
      → KeepsLive g
      → EndsLive {A = A} (elim r [
        | none ↦ none
        | some (returned a, d') ↦ some (returned a, d')
        | some (thrown, d') ↦ g d'
      ])
  handle-EndsLive none g h k = h
  handle-EndsLive (some (returned a, d)) g h k = h
  handle-EndsLive (some (thrown, d)) g h k = k d h

  pub bind-KeepsLive :
      {A B : Type 0} (m : Sql c A) (f : A → Sql c B)
      → KeepsLive m
      → ((a : A) → KeepsLive (f a))
      → KeepsLive (m >>= f)
  bind-KeepsLive m f hm hf d live = continue-EndsLive (m d) f (hm d live) hf

  pub try_catch-KeepsLive :
      {A : Type 0} (m g : Sql c A) → KeepsLive m → KeepsLive g → KeepsLive (try_catch m g)
  try_catch-KeepsLive m g hm hg d live = handle-EndsLive (m d) g (hm d live) hg

  pub pure-KeepsLive : {A : Type 0} (a : A) → KeepsLive (pure a)
  pure-KeepsLive a d live = live

  pub call-KeepsLive : {A : Type 0} (f : c.World → Outcome A × c.World) → KeepsLive (call c f)
  unfolding call
  call-KeepsLive f d live = live

  pub con_ptr-KeepsLive : KeepsLive (con_ptr c)
  unfolding con_ptr
  con_ptr-KeepsLive d live = ground arith

  pub stmt_ptr-KeepsLive : KeepsLive (stmt_ptr c)
  unfolding stmt_ptr
  stmt_ptr-KeepsLive d live = ground arith

  pub set_con-KeepsLive : (p : ℕ) → KeepsLive (set_con c p)
  unfolding set_con
  set_con-KeepsLive p d live = (refl, live.1)

  pub set_stmt-KeepsLive : (p : ℕ) → KeepsLive (set_stmt c p)
  unfolding set_stmt
  set_stmt-KeepsLive p d live = (live.0, refl)

  close_if_open-KeepsLive : (p : ℕ) (closed : Bool) → KeepsLive (Mysql.close_if_open c closed p)
  close_if_open-KeepsLive p true = pure-KeepsLive tt
  close_if_open-KeepsLive p false = call-KeepsLive (c.close p)

  close_con-at :
      (o : Option ℕ)
      → KeepsLive {A = Unit {0}} (λ d. elim o [
        | none ↦ some (returned tt, d)
        | some p ↦ (call c (c.is_closed p) >>= λ closed. Mysql.close_if_open c closed p) d
      ])
  close_con-at none d live = live
  close_con-at (some p) d live =
      bind-KeepsLive (call c (c.is_closed p)) _ (call-KeepsLive (c.is_closed p))
        (close_if_open-KeepsLive p) d live

  pub close_con-KeepsLive : KeepsLive (close_con c)
  unfolding close_con
  close_con-KeepsLive d live = close_con-at d.con d live

  close_stmt-at :
      (o : Option ℕ)
      → KeepsLive {A = Unit {0}}
          (λ d. elim o [ none ↦ some (returned tt, d) | some p ↦ call c (c.close_statement p) d ])
  close_stmt-at none d live = live
  close_stmt-at (some p) d live = call-KeepsLive (c.close_statement p) d live

  pub close_stmt-KeepsLive : KeepsLive (close_stmt c)
  unfolding close_stmt
  close_stmt-KeepsLive d live = close_stmt-at d.stmt d live

  reconnect-KeepsLive :
      (init : Sql c Bool) (valid : Bool) → KeepsLive init → KeepsLive (Mysql.reconnect c init valid)
  reconnect-KeepsLive init true h = pure-KeepsLive tt
  reconnect-KeepsLive init false h = bind-KeepsLive init _ h (λ _. pure-KeepsLive tt)

  -- The update runs to its end, whatever the server answers.
  pub execute_update-KeepsLive :
      (init : Sql c Bool) (sql : Text) → KeepsLive init → KeepsLive (execute_update c init sql)
  unfolding execute_update
  execute_update-KeepsLive init sql h =
      try_catch-KeepsLive _ _
        (bind-KeepsLive (con_ptr c) _ con_ptr-KeepsLive λ p.
          bind-KeepsLive (call c (c.is_valid p)) _ (call-KeepsLive (c.is_valid p)) λ valid.
            bind-KeepsLive (Mysql.reconnect c init valid) _ (reconnect-KeepsLive init valid h) λ _.
              bind-KeepsLive (stmt_ptr c) _ stmt_ptr-KeepsLive
                λ s. call-KeepsLive (c.execute s sql))
        (pure-KeepsLive tt)

  EndsLive→end :
      {A : Type 0} (r : Option (Outcome A × Db c))
      → EndsLive r
      → (o : Outcome A) × (d : Db c) × (r ≡ some (o, d)) × IsLive d
  EndsLive→end none e = absurd e
  EndsLive→end (some (o, d)) e = (o, d, refl, e)

  -- A command that keeps the pointers live has an end state, and they are live there.
  pub KeepsLive→end :
      {A : Type 0} (m : Sql c A) (d : Db c)
      → KeepsLive m
      → IsLive d
      → (r : Outcome A) × (d' : Db c) × (m d ≡ some (r, d')) × IsLive d'
  KeepsLive→end m d h live = EndsLive→end (m d) (h d live)
