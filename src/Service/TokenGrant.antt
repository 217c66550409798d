-- ===== src/Service/TokenGrant.antt =====
-- internal/service/token_grant.go: the grants of POST /oauth/token.
pub mod Soundness
pub mod Redeemed
use iam_service.Prelude.{String, Bool, true, false, ◌&&◌, Option, none, some, ◌==◌, if◌then◌else◌}
use iam_service.Errors.{
  Error, sentinel, new, invalid_grant, invalid_client, unsupported_grant_type, auth_code_not_found,
  is, at,
}
use iam_service.Effect.{M, pure, fail, or_fail, dereference, relabel, require, ◌>>=◌, ◌>>◌}
use iam_service.Models.{Client, AuthCode}
use iam_service.Dtos.{TokenRequest, TokenResponse}
use iam_service.Oauth.{grant_authorization_code, grant_refresh_token}
use iam_service.Text.{join}
use iam_service.Ports.{UserRepo, ClientRepo, RefreshTokenRepo, AuthCodeRepo, TokenIssuer, Runtime}

module _ {W : Type 0} (run : Runtime W) where
  open run use {compare_hash_and_password, sum256, hex, encode_to_string}

  -- Only a client with a secret hash presents a secret.
  abbrev pub secret_is_valid : Client → String → Bool
  secret_is_valid client secret =
      if client.client_secret_hash == ""
      then true
      else compare_hash_and_password client.client_secret_hash secret

  -- base64url of SHA-256, the S256 transformation of RFC 7636
  abbrev pub challenge_of : String → String
  challenge_of verifier = encode_to_string (sum256 verifier)

  -- service/auth.go, hashToken
  unfoldable pub hash_token : String → String
  hash_token token = hex (sum256 token)

abbrev pub place : String
place = "TokenGrantService.authorizationCodeGrant"

-- An unknown code is invalid_grant; any other failure of Consume is wrapped.
abbrev pub consume_error : Error → Error
consume_error e = if is e auth_code_not_found then sentinel invalid_grant else at place e

module _ {W : Type 0} (run : Runtime W) (clients : ClientRepo W) where
  -- The client of the request, authenticated.
  unfoldable pub authenticate : TokenRequest → M W Client
  authenticate req = do
    found ← relabel (at place) (clients.get_by_id req.client_id)
    client ← or_fail (sentinel invalid_client) found
    require (secret_is_valid run client req.client_secret) (sentinel invalid_client)
    pure client

module _ {W : Type 0} (run : Runtime W) (auth_codes : AuthCodeRepo W) where
  -- The code of the request, consumed and checked against the request.
  unfoldable pub redeem : TokenRequest → M W AuthCode
  redeem req = do
    consumed ← relabel consume_error (auth_codes.consume req.code)
    auth_code ← dereference consumed
    require (auth_code.client_id == req.client_id && auth_code.redirect_uri == req.redirect_uri)
        (sentinel invalid_grant)
    require (auth_code.code_challenge_method == "S256") (sentinel invalid_grant)
    require (challenge_of run req.code_verifier == auth_code.code_challenge)
        (sentinel invalid_grant)
    pure auth_code

module _ {W : Type 0} (run : Runtime W) (users : UserRepo W) (refresh_tokens : RefreshTokenRepo W)
    (tokens : TokenIssuer W) where
  -- The tokens for a redeemed code; the refresh token is stored hashed.
  unfoldable pub mint : Client → AuthCode → M W TokenResponse
  mint client auth_code = do
    found ← relabel (at place) (users.get_by_id auth_code.user_id)
    user ← or_fail (sentinel invalid_grant) found
    let scope = join auth_code.scope " "
    access_token ← relabel (at place) (tokens.issue_access_token user.id user.email client.id scope)
    refresh ← tokens.issue_refresh_token
    id ← run.new_string
    relabel (at place) (
        refresh_tokens.create (record {
          id = id;
          user_id = user.id;
          client_id = client.id;
          scope = auth_code.scope;
          token_hash = hash_token run refresh.0;
          expires_at = refresh.1;
          revoked_at = none;
          created_at = 0;
        }))
    pure (record {
      access_token = access_token.access_token_string;
      token_type = "Bearer";
      expires_in = access_token.access_token_expires_in;
      scope = scope;
      refresh_token = refresh.0;
    })

module _ {W : Type 0} (run : Runtime W) (clients : ClientRepo W) (users : UserRepo W)
    (auth_codes : AuthCodeRepo W) (refresh_tokens : RefreshTokenRepo W)
    (tokens : TokenIssuer W) where
  unfoldable pub authorization_code_grant : TokenRequest → M W TokenResponse
  authorization_code_grant req = do
    client ← authenticate run clients req
    auth_code ← redeem run auth_codes req
    mint run users refresh_tokens tokens client auth_code

  -- Both grants below are stubs in the source.
  unfoldable pub refresh_token_grant : TokenRequest → M W TokenResponse
  refresh_token_grant req = fail (new "refreshTokenGrant: not implemented")

  unfoldable pub client_credentials_grant : TokenRequest → M W TokenResponse
  client_credentials_grant req = fail (new "clientCredentialsGrant: not implemented")

  unfoldable pub exchange : TokenRequest → M W TokenResponse
  exchange req =
      if req.grant_type == grant_authorization_code
      then authorization_code_grant req
      else if req.grant_type == grant_refresh_token
      then refresh_token_grant req
      else fail (sentinel unsupported_grant_type)
