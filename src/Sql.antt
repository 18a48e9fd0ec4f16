-- ===== src/Sql.antt =====
-- What the program uses of `database/sql` over a MySQL server, as a parameter: the texts of the
-- statements are the source's, and what the server does with them is not modelled here. The pool is
-- the global of internal/repository/sqlconnect/sqlconfig.go.
pub mod Laws
pub mod Memory
pub mod OneExec
use student_system_go.Common.{ℕ, String, Bool, true, false, Option, none, some, List, if◌then◌else◌}
use student_system_go.Common.Int.{ℤ}
use student_system_go.Go.{Result, ok, err, Call, ⊤}
use student_system_go.Reflect.{Value}

-- `QueryRow(...).Scan(...)`
pub data Row : Type 0 where
  row : List Value → Row
  no_rows failed : Row

-- The result of `Exec`: what `RowsAffected` and `LastInsertId` give, or the driver's error.
pub data Done : Type 0 where
  done : Option ℕ → Option ℤ → Done
  refused : String → Done

-- The servers, a primary and its replica, hold the committed data and at most one transaction of the
-- call that is modelled. Nothing is assumed of how far the replica is behind.
-- Queries outside a transaction go through another connection.
pub record Sql : Type 1 where
  pub S : Type 0
  pub query_row : String → List Value → S → Row
  -- the same on the replica, whose rows may be behind those of the primary
  pub read_row : String → List Value → S → Row
  -- on the replica: the rows, and whether the iteration came to their end without an error
  pub query : String → List Value → S → Option (List (List Value) × Bool)
  pub prepare : String → S → Bool
  pub exec : String → List Value → S → Done × S
  pub begin : S → Bool × S
  pub tx_exec : String → List Value → S → Done × S
  pub commit : S → Bool × S
  pub rollback : S → S

-- The pool variables `Write` and `Read`, each nil until `InitDB` has set it, and the servers.
pub record Pool (db : Sql) : Type 0 where
  pub ready : Bool
  pub read_ready : Bool
  pub server : db.S

abbrev pub not_initialised : String
not_initialised = "database not initialised; call sqlconnect.InitDB at startup"

module _ (db : Sql) where
  -- `ConnectDb` on the `Write` pool.
  unfoldable pub connect_db : Pool db → Result ⊤
  connect_db p = if p.ready then ok tt else err not_initialised

  -- `ConnectReadDb` on the `Read` pool.
  unfoldable pub connect_read_db : Pool db → Result ⊤
  connect_read_db p = if p.read_ready then ok tt else err not_initialised

abbrev pub affected : Done → Option ℕ
affected (done n l) = n
affected (refused message) = none
