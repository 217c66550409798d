-- ===== src/Platform/Db.antt =====
-- The statements that internal/repository sends to MySQL through sqlx, table by table, and what
-- MySQL documents. A WHERE clause is a test on the server's NOW() and a row.
use iam_service.Prelude.{String, List, Bool, true, false, ◌≡◌, ◌⊎◌, Among}
use iam_service.Errors.{Fault, no_rows}
use iam_service.Effect.{Reply, done, failed}
use iam_service.Models.{Time, User, Client, RefreshToken}

pub record Table (S Row : Type 0) : Type 0 where
  -- db.GetContext: one row, or sql.ErrNoRows
  pub find : (Time → Row → Bool) → S → Reply Row × S
  -- db.SelectContext: all the rows
  pub select : (Time → Row → Bool) → S → Reply (List Row) × S
  -- INSERT; the columns that it leaves out get their defaults, which may read NOW()
  pub insert : (Time → Row) → S → Reply (Unit {0}) × S
  -- UPDATE … SET … WHERE
  pub update : (Time → Row → Bool) → (Time → Row → Row) → S → Reply (Unit {0}) × S
  -- DELETE … WHERE
  pub delete : (Time → Row → Bool) → S → Reply (Unit {0}) × S

pub record Sql : Type 1 where
  pub State : Type 0
  -- `=` on text columns, by the column's collation
  pub text_eq : String → String → Bool
  pub users : Table State User
  pub clients : Table State Client
  pub refresh_tokens : Table State RefreshToken

-- What a query for one row may answer.
abbrev pub Finds : {Row : Type 0} → (Row → Type 0) → (Row → Bool) → Reply Row → Type 0
Finds has test (done r) = has r × (test r ≡ true)
Finds {Row} has test (failed no_rows) = (r : Row) → has r → test r ≡ false
Finds has test (failed _) = Unit

-- A table is a set of rows. A statement runs at one time; one that fails may have been carried out.
pub record IsTable {S Row : Type 0} (t : Table S Row) : Type 1 where
  pub has : S → Row → Type 0
  pub now : S → Time
  pub find_answers :
      (test : Time → Row → Bool) (s : S) → Finds (has s) (test (now s)) (t.find test s).0
  pub find_keeps : (test : Time → Row → Bool) (s : S) (r : Row) → has (t.find test s).1 r → has s r
  pub find_loses_none :
      (test : Time → Row → Bool) (s : S) (r : Row) → has s r → has (t.find test s).1 r
  pub insert_loses_none : (row : Time → Row) (s : S) (r : Row) → has s r → has (t.insert row s).1 r
  pub insert_only :
      (row : Time → Row) (s : S) (r : Row) → has (t.insert row s).1 r → has s r ⊎ (r ≡ row (now s))
  pub update_done :
      (test : Time → Row → Bool) (change : Time → Row → Row) (s : S) (r : Row)
      → (t.update test change s).0 ≡ done tt
      → has (t.update test change s).1 r
      → (has s r × (test (now s) r ≡ false))
        ⊎ ((old : Row) × has s old × (test (now s) old ≡ true) × (r ≡ change (now s) old))
  pub delete_done :
      (test : Time → Row → Bool) (s : S) (r : Row)
      → (t.delete test s).0 ≡ done tt
      → has (t.delete test s).1 r
      → has s r × (test (now s) r ≡ false)
  pub select_answers :
      (test : Time → Row → Bool) (s : S) (rows : List Row)
      → (t.select test s).0 ≡ done rows
      → (r : Row) → Among r rows
      → has s r × (test (now s) r ≡ true)

-- The tables are lawful, `=` is reflexive, and a query of one table leaves the others alone.
pub record IsSql (q : Sql) : Type 1 where
  pub users : IsTable q.users
  pub clients : IsTable q.clients
  pub refresh_tokens : IsTable q.refresh_tokens
  pub text_eq_refl : (t : String) → q.text_eq t t ≡ true
  pub client_find_keeps_users :
      (test : Time → Client → Bool) (s : q.State) (u : User)
      → users.has s u
      → users.has (q.clients.find test s).1 u

-- An assumption on the database while it serves: no query meets a failure, and no row of a refresh
-- token is refused, not by its key or its foreign key either.
pub record SqlIsUp (q : Sql) : Type 0 where
  pub user_up :
      (test : Time → User → Bool) (s : q.State) (f : Fault)
      → (q.users.find test s).0 ≡ failed f
      → f ≡ no_rows
  pub client_up :
      (test : Time → Client → Bool) (s : q.State) (f : Fault)
      → (q.clients.find test s).0 ≡ failed f
      → f ≡ no_rows
  pub token_insert_up :
      (row : Time → RefreshToken) (s : q.State) → (q.refresh_tokens.insert row s).0 ≡ done tt
