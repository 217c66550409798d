-- ===== src/Repository/Client.antt =====
-- internal/repository/client.go: statements on the clients table.
use iam_service.Prelude.{String, Option, none, some, if◌then◌else◌}
use iam_service.Errors.{is_no_rows, at}
use iam_service.Effect.{M, pure, fail, relabel, on_error, ◌>>=◌}
use iam_service.Models.{Client}
use iam_service.Platform.{Platform, World, on_db}

module _ (p : Platform) where
  unfoldable pub create : Client → M (World p) (Unit {0})
  create c =
      relabel (at "ClientRepository.Create")
        (on_db p (p.sql.clients.insert λ now. record c { created_at = now }))

  unfoldable pub get_by_id : String → M (World p) (Option Client)
  get_by_id id =
      on_error (λ e. if is_no_rows e then pure none else fail (at "ClientRepository.GetByID" e))
        (do c ← on_db p (p.sql.clients.find (λ now row. p.sql.text_eq row.id id)); pure (some c))
