-- ===== src/Repository/User.antt =====
-- internal/repository/user.go: statements on the users table.
use iam_service.Prelude.{String, Option, none, some, if◌then◌else◌}
use iam_service.Errors.{is_no_rows, at}
use iam_service.Effect.{M, pure, fail, relabel, on_error, ◌>>=◌}
use iam_service.Models.{User}
use iam_service.Platform.{Platform, World, on_db}

module _ (p : Platform) where
  unfoldable pub create : User → M (World p) (Unit {0})
  create u = relabel (at "UserRepository.Create") (
      on_db p (
        p.sql.users.insert λ now. record {
          id = u.id;
          email = u.email;
          password_hash = u.password_hash;
          created_at = now;
        }))

  -- Here sql.ErrNoRows stays an error.
  unfoldable pub get_by_id : String → M (World p) (Option User)
  get_by_id id = do
    u ←
        relabel (at "UserRepository.GetByID")
          (on_db p (p.sql.users.find (λ now row. p.sql.text_eq row.id id)))
    pure (some u)

  unfoldable pub get_by_email : String → M (World p) (Option User)
  get_by_email email =
      on_error (λ e. if is_no_rows e then pure none else fail (at "UserRepository.GetByEmail" e))
        (do
          u ← on_db p (p.sql.users.find (λ now row. p.sql.text_eq row.email email))
          pure (some u))

  unfoldable pub delete : String → M (World p) (Unit {0})
  delete id =
      relabel (at "UserRepository.Delete")
        (on_db p (p.sql.users.delete (λ now row. p.sql.text_eq row.id id)))
