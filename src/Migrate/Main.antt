-- ===== src/Migrate/Main.antt =====
-- The subcommands. log.Fatalf ends the process: it is an error that nothing handles, and runs no
-- deferred call.
use Prim.Native.String.{◌++◌ as concat}
use iam_service.Prelude.{String, List, [], ◌∷◌, ◌==◌, if◌then◌else◌}
use iam_service.Errors.{new, at}
use iam_service.Effect.{M, pure, fail, relabel, ok, ◌>>=◌, ◌>>◌}
use iam_service.Migrate.Goose.{Parsed, Parse, parsed, helped, exited, Goose, calling}

abbrev pub dir_flag : String × String
dir_flag = ("dir", "database/migrations")

module _ (getenv : String → String) where
  abbrev pub env_or_default : (key default : String) → String
  env_or_default key default = let v = getenv key in if v == "" then default else v

  abbrev pub dsn : String
  dsn = concat (env_or_default "DB_USER" "iam") (
      concat ":" (
        concat (env_or_default "DB_PASSWORD" "secret") (
          concat "@tcp(" (
            concat (env_or_default "DB_HOST" "localhost") (
              concat ":" (
                concat (env_or_default "DB_PORT" "3306") (
                  concat ")/" (
                    concat (env_or_default "DB_NAME" "iam_db")
                      "?parseTime=true&charset=utf8mb4&multiStatements=true"))))))))

  module _ (g : Goose) where
    -- The deferred Close, whose answer is dropped.
    abbrev pub closed : g.Db → M g.State (Unit {0})
    closed db s = (ok tt, (g.close db s).1)

    unfoldable pub run_with_db : (command dir : String) (args : List String) → M g.State (Unit {0})
    run_with_db command dir args = do
      db ← relabel (at "sql.Open") (calling g (g.sql_open dsn))
      relabel (at "db.Ping") (calling g (g.ping db))
      relabel (at (concat "goose.Run(" (concat command ")")))
          (calling g (g.run_context command db dir args))
      closed db

    -- Where the process ended with status 0, the run succeeded, and did no more.
    abbrev pub migrate_parsed : (command : String) → Parse → M g.State (Unit {0})
    migrate_parsed command helped = pure tt
    migrate_parsed command exited = fail (new "exit status 2")
    migrate_parsed command (parsed p) = run_with_db command (p.flag "dir") p.args

    -- `up` and `down`
    unfoldable pub migrate : (command : String) → List String → M g.State (Unit {0})
    migrate command rest = migrate_parsed command (g.parse (dir_flag ∷ []) rest)

    abbrev pub create_named : Parsed → List String → M g.State (Unit {0})
    create_named given [] = fail (new "usage: create [flags] <migration_name>")
    create_named given (name ∷ more) =
        relabel (at "goose.Create")
          (calling g (g.create (given.flag "dir") name (given.flag "type")))

    abbrev pub create_parsed : Parse → M g.State (Unit {0})
    create_parsed helped = pure tt
    create_parsed exited = fail (new "exit status 2")
    create_parsed (parsed p) = create_named p p.args

    unfoldable pub create : List String → M g.State (Unit {0})
    create rest = create_parsed (g.parse (dir_flag ∷ ("type", "sql") ∷ []) rest)

    unfoldable pub subcommand : String → List String → M g.State (Unit {0})
    subcommand command rest =
        if command == "up"
        then migrate "up" rest
        else if command == "down"
        then migrate "down" rest
        else if command == "create"
        then create rest
        else fail (new (concat "unknown command: " command))

    -- os.Args, the program's name first.
    unfoldable pub main : List String → M g.State (Unit {0})
    main [] = fail (new "expected 'up', 'down', or 'create' subcommands")
    main (program ∷ []) = fail (new "expected 'up', 'down', or 'create' subcommands")
    main (program ∷ command ∷ rest) = do
      relabel (at "goose.SetDialect") (calling g (g.set_dialect "mysql"))
      subcommand command rest
