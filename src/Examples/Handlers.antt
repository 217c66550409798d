-- ===== src/Examples/Handlers.antt =====
-- The token endpoint's credentials and errors at concrete inputs.
use iam_service.Prelude.{[], some, refl}
use iam_service.Errors.{sentinel, invalid_client, at}
use iam_service.Handler.Response.{header}
use iam_service.Handler.Token.{
  write_token_exchange_error, resolve_client, Resolution, resolve_client-Resolution,
}
use iam_service.Handler.TokenError.{IsTokenError, write_token_exchange_error-IsTokenError}
use iam_service.Examples.Flow.{redeem_it}

resolve_client-Resolution_example :
    Resolution "Basic c3BhOg=="
      (some ("spa", ""))
      redeem_it
      (resolve_client "Basic c3BhOg==" (some ("spa", "")) redeem_it)
resolve_client-Resolution_example =
    resolve_client-Resolution "Basic c3BhOg==" (some ("spa", "")) redeem_it

write_token_exchange_error-IsTokenError_example :
    IsTokenError
      (some invalid_client)
      (write_token_exchange_error [] (at "TokenGrantService" (sentinel invalid_client)))
unfolding header
write_token_exchange_error-IsTokenError_example =
    write_token_exchange_error-IsTokenError [] refl
      (at "TokenGrantService" (sentinel invalid_client))
