-- ===== src/Repository/Query.antt =====
-- The database as the repositories see it: the tables, and SQL statements that may fail. A
-- statement is atomic. Which statements fail for a reason outside the tables (a lost connection, an
-- id that is no UUID, a text with a zero byte, a timeout) is a list of outcomes, one for each
-- statement to come, `true` for a failure; past its end none fails. The rows of a list take an outcome each, once the statement has
-- succeeded. A theorem for every such list covers every failure.
pub mod Rules
pub mod Frames
use geo_note.Common.{String, Bool, true, false, Option, List, [], ◌∷◌}
use geo_note.Model.{User, MessageRow, Interaction, Unlock, Report, Reaction, UserStreak, Badge}

-- `ErrNotFound` of errors.go, `pgx.ErrNoRows`, the error of a refused login, a Go panic, and every
-- other error.
pub data Error : Type 0 where
  not_found no_rows invalid_credentials panicked failed : Error

pub data Result {ℓ} (A : Type ℓ) : Type ℓ where
  ok : A → Result A
  err : Error → Result A

-- What the table `content_reports` does, which no migration creates: whether it refuses a row for its
-- references or another reason, and which reports are left where messages are deleted, `none` where
-- the DELETE is refused. A parameter, which is a part of the database.
pub record ReportRules : Type 0 where
  pub refuses : Report → List User → List MessageRow → Bool
  pub left : (String → Bool) → List Report → Option (List Report)

pub record Db : Type 0 where
  pub users : List User
  pub messages : List MessageRow
  pub interactions : List Interaction
  pub unlocks : List Unlock
  pub reports : List Report
  pub reactions : List Reaction
  pub streaks : List UserStreak
  pub badges : List Badge
  pub report_rules : ReportRules

pub record Conn : Type 0 where
  pub db : Db
  pub faults : List Bool

abbrev pub Query : Type 0 → Type 0
Query A = Conn → Result A × Conn

module _ {A : Type 0} where
  abbrev pub pure : A → Query A
  pure a c = (ok a, c)

  abbrev pub raise : Error → Query A
  raise e c = (err e, c)

  abbrev on_tables : (Db → Result A × Db) → Db → List Bool → Result A × Conn
  on_tables run db faults = let (r, db') = run db in (r, record { db = db'; faults = faults })

  abbrev execute : (Db → Result A × Db) → Db → List Bool → Result A × Conn
  execute run db [] = on_tables run db []
  execute run db (true ∷ faults) = (err failed, record { db = db; faults = faults })
  execute run db (false ∷ faults) = on_tables run db faults

  -- One SQL statement.
  abbrev pub statement : (Db → Result A × Db) → Query A
  statement run c = execute run c.db c.faults

  -- A statement that reads.
  abbrev pub read : (Db → Result A) → Query A
  read run = statement (λ db. (run db, db))

infixl 5 ◌>>=◌ ◌>>◌
abbrev pub ◌>>=◌ : {A B : Type 0} → Query A → (A → Query B) → Query B
◌>>=◌ m f c = let (r, c') = m c in elim r [ ok a ↦ f a c' | err e ↦ raise e c' ]

abbrev pub ◌>>◌ : {A B : Type 0} → Query A → Query B → Query B
m >> k = m >>= λ _. k

-- `_, err := f()` with the error looked at by the code that follows.
abbrev pub attempt : {A : Type 0} → Query A → Query (Result A)
attempt m c = let (r, c') = m c in (ok r, c')

module _ {A : Type 0} where
  -- The rows up to the first that cannot be read, and the outcomes that are left.
  abbrev pub fetch : List Bool → List A → List A × List Bool
  fetch [] rows = (rows, [])
  fetch (fault ∷ faults) [] = ([], fault ∷ faults)
  fetch (true ∷ faults) (row ∷ rows) = ([], faults)
  fetch (false ∷ faults) (row ∷ rows) = let (rest, left) = fetch faults rows in (row ∷ rest, left)

  abbrev pub receive : List A → Query (List A)
  receive rows c =
      let (read_rows, faults) = fetch c.faults rows in
      (ok read_rows, record { db = c.db; faults = faults })

  -- `rows.Next()` until it is false: no code asks `rows.Err()` why it is.
  abbrev pub read_rows : (Db → Result (List A)) → Query (List A)
  read_rows run = read run >>= receive

-- `BEGIN`, the body, and `COMMIT`; where any of them fails the deferred `Rollback` puts the tables
-- back.
abbrev roll_back : {A : Type 0} → Db → A → Result (Unit {0}) × Conn → Result A × Conn
roll_back before a (ok _, c) = (ok a, c)
roll_back before a (err e, c) = (err e, record c { db = before })

abbrev settle : {A : Type 0} → Db → Result A × Conn → Result A × Conn
settle before (ok a, c) = roll_back before a (read (λ _. ok tt) c)
settle before (err e, c) = (err e, record c { db = before })

abbrev pub begin : Query (Unit {0})
begin = read (λ _. ok tt)

abbrev pub transaction : {A : Type 0} → Query A → Query A
transaction body c = (begin >>= λ _ c'. settle c.db (body c')) c
