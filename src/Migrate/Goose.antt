-- ===== src/Migrate/Goose.antt =====
-- What the command uses of database/sql, of pressly/goose and of the package flag.
use iam_service.Prelude.{String, List}
use iam_service.Effect.{Reply, M, from_reply}

-- The flags' values, and the arguments behind them.
pub record Parsed : Type 0 where
  pub flag : String → String
  pub args : List String

-- What FlagSet.Parse with ExitOnError does: it returns, or the process ends, with status 0 for a
-- request of help (-h, -help) and with status 2 for any other flag that it cannot parse.
pub data Parse : Type 0 where
  parsed : Parsed → Parse
  helped exited : Parse

pub record Goose : Type 1 where
  pub State : Type 0
  pub Db : Type 0
  pub sql_open : (dsn : String) → State → Reply Db × State
  pub ping : Db → State → Reply (Unit {0}) × State
  pub close : Db → State → Reply (Unit {0}) × State
  pub set_dialect : String → State → Reply (Unit {0}) × State
  pub create : (dir name kind : String) → State → Reply (Unit {0}) × State
  pub run_context :
      (command : String)
      → Db
      → (dir : String) → (args : List String) → State
      → Reply (Unit {0}) × State
  -- by the flags' names and defaults
  pub parse : (defaults : List (String × String)) → List String → Parse

module _ (g : Goose) {A : Type 0} where
  abbrev pub calling : (g.State → Reply A × g.State) → M g.State A
  calling op s = let (r, s') = op s in (from_reply r, s')
