-- ===== src/Repository/RefreshToken.antt =====
-- internal/repository/refresh_token.go: statements on the refresh_tokens table.
pub mod Active
use iam_service.Prelude.{
  String, List, Bool, true, false, ◌&&◌, Option, none, some, ltb, if◌then◌else◌,
}
use iam_service.Errors.{is_no_rows, at}
use iam_service.Effect.{M, pure, fail, relabel, on_error, ◌>>=◌}
use iam_service.Models.{Time, RefreshToken}
use iam_service.Platform.{Platform, World, on_db}

-- `revoked_at IS NULL`
abbrev pub is_null : Option Time → Bool
is_null none = true
is_null (some t) = false

module _ (p : Platform) where
  -- `revoked_at` and `created_at` are left to the table's defaults.
  unfoldable pub create : RefreshToken → M (World p) (Unit {0})
  create t = relabel (at "RefreshTokenRepository.Create") (
      on_db p (p.sql.refresh_tokens.insert λ now. record t { revoked_at = none; created_at = now }))

  unfoldable pub get_by_id : String → M (World p) (Option RefreshToken)
  get_by_id id =
      on_error
        (λ e. if is_no_rows e then pure none else fail (at "RefreshTokenRepository.GetByID" e))
        (do
          t ← on_db p (p.sql.refresh_tokens.find (λ now row. p.sql.text_eq row.id id))
          pure (some t))

  -- The test of the statement: the user's tokens, not revoked and not expired.
  unfoldable pub is_active_of : String → Time → RefreshToken → Bool
  is_active_of user_id now row =
      p.sql.text_eq row.user_id user_id && is_null row.revoked_at && ltb now row.expires_at

  unfoldable pub get_active_by_user_id : String → M (World p) (List RefreshToken)
  unfolding is_active_of
  get_active_by_user_id user_id =
      relabel (at "RefreshTokenRepository.GetActiveByUserID")
        (on_db p (p.sql.refresh_tokens.select (is_active_of user_id)))

  unfoldable pub revoke : String → M (World p) (Unit {0})
  revoke id = relabel (at "RefreshTokenRepository.Revoke") (
      on_db p (
        p.sql.refresh_tokens.update (λ now row. p.sql.text_eq row.id id)
          (λ now row. record row { revoked_at = some now })))

  unfoldable pub revoke_all_for_user : String → M (World p) (Unit {0})
  revoke_all_for_user user_id = relabel (at "RefreshTokenRepository.RevokeAllForUser") (
      on_db p (
        p.sql.refresh_tokens.update
          (λ now row. p.sql.text_eq row.user_id user_id && is_null row.revoked_at)
          (λ now row. record row { revoked_at = some now })))

  unfoldable pub delete_expired : M (World p) (Unit {0})
  delete_expired =
      relabel (at "RefreshTokenRepository.DeleteExpired")
        (on_db p (p.sql.refresh_tokens.delete (λ now row. ltb row.expires_at now)))

  unfoldable pub get_token_by_hash : String → M (World p) (Option RefreshToken)
  get_token_by_hash hash =
      on_error
        (λ e.
          if is_no_rows e then pure none else fail (at "RefreshTokenRepository.GetTokenByHash" e))
        (do
          t ← on_db p (p.sql.refresh_tokens.find (λ now row. p.sql.text_eq row.token_hash hash))
          pure (some t))
