-- ===== src/Oauth.antt =====
-- internal/oauth/grant.go: the grant types on the wire, and those that the server implements.
use iam_service.Prelude.{String, Bool, ◌||◌, ◌==◌}

abbrev pub grant_authorization_code : String
grant_authorization_code = "authorization_code"

abbrev pub grant_refresh_token : String
grant_refresh_token = "refresh_token"

abbrev pub grant_client_credentials : String
grant_client_credentials = "client_credentials"

-- The map `SupportedGrantTypes`, read at a key: a missing key reads false.
unfoldable pub supported_grant_types : String → Bool
supported_grant_types grant = grant == grant_authorization_code || grant == grant_refresh_token
