-- ===== src/Handler/Uncached.antt =====
-- internal/handler/token.go: what every answer of POST /oauth/token has in common.
use iam_service.Prelude.{ℕ, String, List, [], some, ◌≡◌, ◌≢◌, refl, Bool-cases, inl, inr, ◌==◌}
use iam_service.Errors.{Error}
use iam_service.Effect.{ok}
use iam_service.Effect.Always.{IsAlways, always}
use iam_service.Dtos.{TokenResponse}
use iam_service.Web.{Web}
use iam_service.Validator.Rules.{Engine}
use iam_service.Handler.Ports.{TokenGrantService}
use iam_service.Handler.Response.{
  Request, Response, Body, Headers, header, redirect_body, token_body, write_json,
}
use iam_service.Handler.Token.{
  no_store, write_token_error, write_token_exchange_error, write_client_error,
  write_validation_error, exchange_valid, token_form, token,
}
use iam_service.Handler.TokenError.{write_token_exchange_error-IsTokenError}

-- JSON that no cache may store.
pub record IsUncached (r : Response) : Type 0 where
  pub cache_control : header r.headers "Cache-Control" ≡ some "no-store"
  pub pragma : header r.headers "Pragma" ≡ some "no-cache"
  pub content_type : header r.headers "Content-Type" ≡ some "application/json"
  pub stays : (target : String) → r.body ≢ redirect_body target

written :
    (headers : Headers) (status : ℕ) (b : Body)
    → ((target : String) → b ≢ redirect_body target)
    → IsUncached (write_json (no_store headers) status b)
unfolding header
written headers status b stays = record {
  cache_control = refl;
  pragma = refl;
  content_type = refl;
  stays = stays;
}

error_written :
    (headers : Headers) (status : ℕ) (code description : String)
    → IsUncached (write_token_error headers status code description)
error_written headers status code description = written headers status _ (λ target. cc)

client_error_written : (code : String) → IsUncached (write_client_error code)
client_error_written code = elim (Bool-cases (code == "invalid_client")) [
  | inl e ↦ rw e (error_written _ 401 code "")
  | inr e ↦ rw e (error_written _ 400 code "")
]

exchange_error_written : (e : Error) → IsUncached (write_token_exchange_error [] e)
unfolding header write_token_exchange_error
exchange_error_written e =
    let error = write_token_exchange_error-IsTokenError [] refl e in
    record {
      cache_control = error.cache_control;
      pragma = error.pragma;
      content_type = error.content_type;
      stays = λ target h. cc (error.body, h);
    }

module _ (n : Web) (engine : Engine) {W : Type 0} (grants : TokenGrantService W) where
  uncached : (r : Request n) → IsAlways IsUncached (token n engine grants r)
  unfolding token token_form exchange_valid
  uncached r =
      search
        (
          always, error_written, client_error_written, exchange_error_written, validation_written,
          tokens_written,
        )
        depth 12
    where
      validation_written :
          (errs : List (String × String)) → IsUncached (write_validation_error (no_store []) errs)
      validation_written errs = written [] 400 _ (λ target. cc)

      tokens_written :
          (resp : TokenResponse) → IsUncached (write_json (no_store []) 200 (token_body resp))
      tokens_written resp = written [] 200 _ (λ target. cc)

  -- Every answer of POST /oauth/token, of whatever branch, is JSON that no cache may store, and
  -- never a redirect.
  pub token-IsUncached :
      (r : Request n) (resp : Response) (w w' : W)
      → token n engine grants r w ≡ (ok resp, w')
      → IsUncached resp
  token-IsUncached r resp w w' h = (uncached r).at w h
