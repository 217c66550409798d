-- ===== src/Handler/TokenError.antt =====
-- internal/handler/token.go: which answer an error of Exchange gets.
use iam_service.Prelude.{String, Option, none, some, ◌≡◌, ◌≢◌, refl, ◌⊎◌, inl, inr}
use iam_service.Errors.{
  Error, Sentinel, sentinel, foreign, new, wrap, redis_key_not_found, session_not_found,
  auth_code_not_found, email_taken, email_or_password_wrong, unsupported_grant_type,
  public_client_credentials_grant, invalid_grant, invalid_client, unauthorized_client,
  invalid_scope,
}
use iam_service.Handler.Response.{Headers, header, token_error_body, Response}
use iam_service.Handler.Token.{write_token_error, write_token_exchange_error}

-- The sentinel at the end of a chain of errors, if one stands there.
abbrev pub root : Error → Option Sentinel
root (sentinel s) = some s
root (foreign f) = none
root (new text) = none
root (wrap before e after) = root e

-- The code and the description that RFC 6749 §5.2 has for an error: the five that it names have no
-- description, and any other is an invalid_grant.
abbrev pub told : Option Sentinel → String × String
told (some unsupported_grant_type) = ("unsupported_grant_type", "")
told (some invalid_client) = ("invalid_client", "")
told (some unauthorized_client) = ("unauthorized_client", "")
told (some invalid_scope) = ("invalid_scope", "")
told (some invalid_grant) = ("invalid_grant", "")
told _ = ("invalid_grant", "the authorization grant is invalid")

-- The error response of RFC 6749 §5.2 to an error whose root is `at`.
pub record IsTokenError (at : Option Sentinel) (r : Response) : Type 0 where
  pub cache_control : header r.headers "Cache-Control" ≡ some "no-store"
  pub pragma : header r.headers "Pragma" ≡ some "no-cache"
  pub content_type : header r.headers "Content-Type" ≡ some "application/json"
  pub body :
      r.body ≡ token_error_body (record { error = (told at).0; error_description = (told at).1 })
  -- 401 with a challenge for invalid_client, 400 without one for every other error
  pub status :
      ((at ≡ some invalid_client)
        × (r.status ≡ 401)
        × (header r.headers "WWW-Authenticate" ≡ some "Basic realm=\"oauth2\""))
      ⊎ ((at ≢ some invalid_client)
          × (r.status ≡ 400)
          × (header r.headers "WWW-Authenticate" ≡ none))

module _ (headers : Headers) (clear : header headers "WWW-Authenticate" ≡ none) where
  plain :
      (at : Option Sentinel)
      → at ≢ some invalid_client
      → IsTokenError at (write_token_error headers 400 (told at).0 (told at).1)
  unfolding header
  plain at other = record {
    cache_control = refl;
    pragma = refl;
    content_type = refl;
    body = refl;
    status = inr (other, refl, clear);
  }

  of_sentinel :
      (s : Sentinel) → IsTokenError (some s) (write_token_exchange_error headers (sentinel s))
  unfolding write_token_exchange_error header
  of_sentinel invalid_client = record {
    cache_control = refl;
    pragma = refl;
    content_type = refl;
    body = refl;
    status = inl (refl, refl, refl);
  }
  of_sentinel redis_key_not_found = plain _ (λ h. cc)
  of_sentinel session_not_found = plain _ (λ h. cc)
  of_sentinel auth_code_not_found = plain _ (λ h. cc)
  of_sentinel email_taken = plain _ (λ h. cc)
  of_sentinel email_or_password_wrong = plain _ (λ h. cc)
  of_sentinel unsupported_grant_type = plain _ (λ h. cc)
  of_sentinel public_client_credentials_grant = plain _ (λ h. cc)
  of_sentinel invalid_grant = plain _ (λ h. cc)
  of_sentinel unauthorized_client = plain _ (λ h. cc)
  of_sentinel invalid_scope = plain _ (λ h. cc)

  -- An error of Exchange, however often it was wrapped, is answered with the code of its sentinel
  -- and no description for unsupported_grant_type, invalid_client, unauthorized_client,
  -- invalid_scope and invalid_grant, and with invalid_grant and a description otherwise: a JSON
  -- error that no cache may store, with 401 and a challenge for invalid_client, and 400 without
  -- one for the rest, if no challenge was set before.
  pub write_token_exchange_error-IsTokenError :
      (e : Error) → IsTokenError (root e) (write_token_exchange_error headers e)
  unfolding write_token_exchange_error
  write_token_exchange_error-IsTokenError (sentinel s) = of_sentinel s
  write_token_exchange_error-IsTokenError (foreign f) = plain none (λ h. cc)
  write_token_exchange_error-IsTokenError (new text) = plain none (λ h. cc)
  write_token_exchange_error-IsTokenError (wrap before e after) =
      write_token_exchange_error-IsTokenError e
