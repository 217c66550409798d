-- ===== src/Migrate/Done.antt =====
-- What a run of the command that succeeded has done.
use iam_service.Prelude.{
  String, List, [], ◌∷◌, ◌≡◌, ◌⊎◌, inl, inr, refl, ap, sym, subst, ◌==◌, eq_iff, Bool-cases,
}
use iam_service.Effect.{Result, Reply, done, ok, from_reply-eq-ok, relabel-inv, relabel-eq-ok}
use iam_service.Migrate.Goose.{Parsed, Parse, parsed, helped, exited, Goose, calling}
use iam_service.Migrate.Main.{
  dsn, run_with_db, dir_flag, migrate_parsed, migrate, create_named, create_parsed, create,
  subcommand, main,
}

module _ (getenv : String → String) (g : Goose) where
  -- A run that took `s` to `s'`: goose ran one of the two directions on the database of the
  -- environment, after a Ping, or made one migration, or the command's help was asked for.
  pub data IsDone (args : List String) (s s' : g.State) : Type 0 where
    migrated :
        (program command : String) (rest : List String) (given : Parsed) (db : g.Db)
        (s1 s2 s3 s4 : g.State)
        → args ≡ program ∷ command ∷ rest
        → (command ≡ "up") ⊎ (command ≡ "down")
        → g.set_dialect "mysql" s ≡ (done tt, s1)
        → g.parse (dir_flag ∷ []) rest ≡ parsed given
        → g.sql_open (dsn getenv) s1 ≡ (done db, s2)
        → g.ping db s2 ≡ (done tt, s3)
        → g.run_context command db (given.flag "dir") given.args s3 ≡ (done tt, s4)
        → s' ≡ (g.close db s4).1
        → IsDone args s s'
    made :
        (program name : String) (rest more : List String) (given : Parsed) (s1 : g.State)
        → args ≡ program ∷ "create" ∷ rest
        → g.set_dialect "mysql" s ≡ (done tt, s1)
        → g.parse (dir_flag ∷ ("type", "sql") ∷ []) rest ≡ parsed given
        → given.args ≡ name ∷ more
        → g.create (given.flag "dir") name (given.flag "type") s1 ≡ (done tt, s')
        → IsDone args s s'
    shown :
        (program command : String) (rest : List String)
        → args ≡ program ∷ command ∷ rest
        → (((command ≡ "up") ⊎ (command ≡ "down")) × (g.parse (dir_flag ∷ []) rest ≡ helped))
          ⊎ ((command ≡ "create") × (g.parse (dir_flag ∷ ("type", "sql") ∷ []) rest ≡ helped))
        → g.set_dialect "mysql" s ≡ (done tt, s')
        → IsDone args s s'

  called :
      {A : Type 0} (op : g.State → Reply A × g.State) (s : g.State) {a : A} {s' : g.State}
      → calling g op s ≡ (ok a, s')
      → op s ≡ (done a, s')
  called {A} op s h =
      let reply = from_reply-eq-ok (op s).0 (ap (λ (x : Result A × g.State). x.0) h) in
      let state = ap (λ (x : Result A × g.State). x.1) h in λ i. (reply i, state i)

  module _ (program : String) (rest : List String) (s s1 s' : g.State)
      (is_set : g.set_dialect "mysql" s ≡ (done tt, s1)) where
    module _ (command : String) (known : (command ≡ "up") ⊎ (command ≡ "down")) where
      ran-IsDone :
          (given : Parsed)
          → g.parse (dir_flag ∷ []) rest ≡ parsed given
          → run_with_db getenv g command (given.flag "dir") given.args s1 ≡ (ok tt, s')
          → IsDone (program ∷ command ∷ rest) s s'
      unfolding run_with_db
      ran-IsDone given e h =
          relabel-inv _ (calling g (g.sql_open (dsn getenv))) _ s1 h λ db s2 e1 k1.
            relabel-inv _ (calling g (g.ping db)) _ s2 k1 λ _ s3 e2 k2.
              relabel-inv _ (calling g (g.run_context command db (given.flag "dir") given.args)) _
                s3 k2
                λ _ s4 e3 k3.
                  migrated program command rest given db s1 s2 s3 s4 refl known is_set e
                    (called (g.sql_open (dsn getenv)) s1 e1) (called (g.ping db) s2 e2)
                    (called (g.run_context command db (given.flag "dir") given.args) s3 e3)
                    (sym (ap (λ (x : Result (Unit {0}) × g.State). x.1) k3))

      migrate-IsDone :
          (reply : Parse)
          → g.parse (dir_flag ∷ []) rest ≡ reply
          → migrate_parsed getenv g command reply s1 ≡ (ok tt, s')
          → IsDone (program ∷ command ∷ rest) s s'
      migrate-IsDone helped e h =
          let same : s1 ≡ s' = ap (λ (x : Result (Unit {0}) × g.State). x.1) h in
          shown program command rest refl (inl (known, e))
            (subst (λ x. g.set_dialect "mysql" s ≡ (done tt, x)) same is_set)
      migrate-IsDone exited e h = absurd (cc)
      migrate-IsDone (parsed given) e h = ran-IsDone given e h

    named-IsDone :
        (given : Parsed) (names : List String)
        → g.parse (dir_flag ∷ ("type", "sql") ∷ []) rest ≡ parsed given
        → given.args ≡ names
        → create_named getenv g given names s1 ≡ (ok tt, s')
        → IsDone (program ∷ "create" ∷ rest) s s'
    named-IsDone given [] e names h = absurd (cc)
    named-IsDone given (name ∷ more) e names h =
        let make = g.create (given.flag "dir") name (given.flag "type") in
        made program name rest more given s1 refl is_set e names
          (called make s1 (relabel-eq-ok _ (calling g make) s1 h))

    create-IsDone :
        (reply : Parse)
        → g.parse (dir_flag ∷ ("type", "sql") ∷ []) rest ≡ reply
        → create_parsed getenv g reply s1 ≡ (ok tt, s')
        → IsDone (program ∷ "create" ∷ rest) s s'
    create-IsDone helped e h =
        let same : s1 ≡ s' = ap (λ (x : Result (Unit {0}) × g.State). x.1) h in
        shown program "create" rest refl (inr (refl, e))
          (subst (λ x. g.set_dialect "mysql" s ≡ (done tt, x)) same is_set)
    create-IsDone exited e h = absurd (cc)
    create-IsDone (parsed given) e h = named-IsDone given given.args e refl h

    subcommand-IsDone :
        (command : String)
        → subcommand getenv g command rest s1 ≡ (ok tt, s')
        → IsDone (program ∷ command ∷ rest) s s'
    unfolding subcommand migrate create
    subcommand-IsDone command h = elim (Bool-cases (command == "up")) [
      | inl e ↦ rw ((eq_iff command "up").0 e) (migrate-IsDone "up" (inl refl) _ refl (rw e at h))
      | inr e ↦ elim (Bool-cases (command == "down")) [
        | inl f ↦
            rw ((eq_iff command "down").0 f)
              (migrate-IsDone "down" (inr refl) _ refl (rw (e, f) at h))
        | inr f ↦ elim (Bool-cases (command == "create")) [
          | inl k ↦ rw ((eq_iff command "create").0 k) (create-IsDone _ refl (rw (e, f, k) at h))
          | inr k ↦ absurd (cc (ap (λ (x : Result (Unit {0}) × g.State). x.0) (rw (e, f, k) at h)))
        ]
      ]
    ]

  -- A run that succeeded set the dialect, and was `up` or `down`: the database that the environment
  -- names was opened and answered a Ping, then goose ran that direction on it with the directory
  -- and the arguments that were given, and it was closed; or `create` with a name, and goose made
  -- that migration; or one of the three with a request of its help, and nothing else happened.
  -- Any other command line fails.
  pub main-IsDone :
      (args : List String) (s s' : g.State) → main getenv g args s ≡ (ok tt, s') → IsDone args s s'
  unfolding main
  main-IsDone [] s s' h = absurd (cc)
  main-IsDone (program ∷ []) s s' h = absurd (cc)
  main-IsDone (program ∷ command ∷ rest) s s' h =
      relabel-inv _ (calling g (g.set_dialect "mysql")) _ s h λ _ s1 e k.
        subcommand-IsDone program rest s s1 s' (called (g.set_dialect "mysql") s e) command k
