-- ===== src/Examples/Migrate.antt =====
-- A migration on a database in memory.
use iam_service.Prelude.{String, List, [], ◌∷◌, refl}
use iam_service.Effect.{done, on_error, ◌>>=◌}
use iam_service.Migrate.Goose.{parsed, Goose}
use iam_service.Migrate.Main.{run_with_db, migrate, subcommand, main}
use iam_service.Migrate.Done.{IsDone, main-IsDone}

-- The state lists what goose ran. No flag is given.
abbrev goose : Goose
goose = record {
  State = List String;
  Db = Unit {0};
  sql_open = λ dsn s. (done tt, s);
  ping = λ db s. (done tt, s);
  close = λ db s. (done tt, s);
  set_dialect = λ name s. (done tt, s);
  create = λ dir name kind s. (done tt, name ∷ s);
  run_context = λ command db dir args s. (done tt, command ∷ s);
  parse = λ defaults args. parsed (record { flag = λ name. "database/migrations"; args = args });
}

abbrev no_env : String → String
no_env key = ""

main-IsDone_example : IsDone no_env goose ("migrate" ∷ "up" ∷ []) [] ("up" ∷ [])
unfolding main subcommand migrate run_with_db ◌>>=◌ on_error
main-IsDone_example = main-IsDone no_env goose ("migrate" ∷ "up" ∷ []) [] ("up" ∷ []) refl
