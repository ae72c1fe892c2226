-- ===== src/Mysql.antt =====
-- What the two managers use of MySQL Connector/C++ (ext/mysql/include/cppconn): an interface, since
-- the library is binary, and the commands of a manager over its two pointers `con` and `stmt`.
pub mod Live
use schedule_center.Base.{ℕ, Bool, true, false, List, Option, none, some}
use schedule_center.Base.Text.{Text}

-- A call returns or throws `sql::SQLException`.
pub data Outcome {ℓ} (A : Type ℓ) : Type ℓ where
  returned : A → Outcome A
  thrown : Outcome A

-- A row of a `sql::ResultSet`, read by column name. An `int` is its 32-bit pattern.
pub record Row : Type 0 where
  pub get_string : Text → Outcome Text
  pub get_int : Text → Outcome ℕ

-- The server with the library's own state. Pointers are numbers; each call may throw.
pub record Connector : Type 1 where
  pub World : Type 0
  pub connect : Text → Text → Text → World → Outcome ℕ × World
  pub is_closed : ℕ → World → Outcome Bool × World
  pub is_valid : ℕ → World → Outcome Bool × World
  pub close : ℕ → World → Outcome (Unit {0}) × World
  pub set_schema : ℕ → Text → World → Outcome (Unit {0}) × World
  pub create_statement : ℕ → World → Outcome ℕ × World
  pub close_statement : ℕ → World → Outcome (Unit {0}) × World
  pub execute : ℕ → Text → World → Outcome (Unit {0}) × World
  -- The rows that `next` reaches; `thrown` stands for a `next` that throws.
  pub execute_query : ℕ → Text → World → Outcome (List (Outcome Row)) × World
  pub close_result : World → Outcome (Unit {0}) × World
  -- `prepareStatement`, `setString(1, …)` and `executeQuery`, with the calls of `close` that follow.
  pub query_with : ℕ → Text → Text → World → Outcome (List (Outcome Row)) × World

-- What `config_mgr` gives for "ip", "usr" and "pass" of "mysql".
pub record Login : Type 0 where
  pub ip : Text
  pub usr : Text
  pub pass : Text

module _ (c : Connector) where
  -- A manager's `con` and `stmt`, NULL as `none`.
  pub record Db : Type 0 where
    pub con : Option ℕ
    pub stmt : Option ℕ
    pub world : c.World

  -- A command over the pointers. `none` is a call through a NULL pointer.
  abbrev pub Sql : Type 0 → Type 0
  Sql A = Db → Option (Outcome A × Db)

module _ {c : Connector} where
  abbrev pub pure : {A : Type 0} → A → Sql c A
  pure a d = some (returned a, d)

  infixl 5 ◌>>=◌ ◌>>◌
  abbrev pub ◌>>=◌ : {A B : Type 0} → Sql c A → (A → Sql c B) → Sql c B
  ◌>>=◌ m f d = elim (m d) [
    | none ↦ none
    | some (returned a, d') ↦ f a d'
    | some (thrown, d') ↦ some (thrown, d')
  ]

  abbrev pub ◌>>◌ : {B : Type 0} → Sql c (Unit {0}) → Sql c B → Sql c B
  m >> k = m >>= λ _. k

  -- `try { m } catch (sql::SQLException&) { h }`
  abbrev pub try_catch : {A : Type 0} → Sql c A → Sql c A → Sql c A
  try_catch m h d = elim (m d) [
    | none ↦ none
    | some (returned a, d') ↦ some (returned a, d')
    | some (thrown, d') ↦ h d'
  ]

module _ (c : Connector) where
  unfoldable pub call : {A : Type 0} → (c.World → Outcome A × c.World) → Sql c A
  call f d = let (r, w) = f d.world in some (r, record d { world = w })

  unfoldable pub con_ptr : Sql c ℕ
  con_ptr d = elim d.con [ none ↦ none | some p ↦ some (returned p, d) ]

  unfoldable pub stmt_ptr : Sql c ℕ
  stmt_ptr d = elim d.stmt [ none ↦ none | some p ↦ some (returned p, d) ]

  unfoldable pub set_con : ℕ → Sql c (Unit {0})
  set_con p d = some (returned tt, record d { con = some p })

  unfoldable pub set_stmt : ℕ → Sql c (Unit {0})
  set_stmt p d = some (returned tt, record d { stmt = some p })

  abbrev close_if_open : Bool → ℕ → Sql c (Unit {0})
  close_if_open true p = pure tt
  close_if_open false p = call (c.close p)

  -- `if (con && !con->isClosed()) con->close();`
  unfoldable pub close_con : Sql c (Unit {0})
  unfolding call
  close_con d = elim d.con [
    | none ↦ some (returned tt, d)
    | some p ↦ (call (c.is_closed p) >>= λ closed. close_if_open closed p) d
  ]

  -- `if (stmt) stmt->close();`
  unfoldable pub close_stmt : Sql c (Unit {0})
  unfolding call
  close_stmt d = elim d.stmt [
    | none ↦ some (returned tt, d)
    | some p ↦ call (c.close_statement p) d
  ]

  abbrev reconnect : Sql c Bool → Bool → Sql c (Unit {0})
  reconnect init_sql_conn true = pure tt
  reconnect init_sql_conn false = init_sql_conn >>= λ _. pure tt

  -- `try { if (!con->isValid()) init_sql_conn(); stmt->execute(sql); } catch (…) { printf }`
  unfoldable pub execute_update : Sql c Bool → Text → Sql c (Unit {0})
  unfolding call con_ptr stmt_ptr
  execute_update init_sql_conn sql =
      try_catch
        (do
          p ← con_ptr
          valid ← call (c.is_valid p)
          reconnect init_sql_conn valid
          s ← stmt_ptr
          call (c.execute s sql))
        (pure tt)
