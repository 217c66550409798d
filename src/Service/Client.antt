-- ===== src/Service/Client.antt =====
-- internal/service/client.go: registration of OAuth clients.
pub mod Registration
use Prim.Native.String.{◌++◌ as concat}
use iam_service.Prelude.{String, List, [], ◌∷◌, Bool, true, false, ◌&&◌, not, ◌==◌, if◌then◌else◌}
use iam_service.Errors.{
  Error, sentinel, unsupported_grant_type, public_client_credentials_grant, wrap, at,
}
use iam_service.Effect.{M, pure, fail, relabel, ◌>>=◌, ◌>>◌}
use iam_service.Dtos.{RegisterClientRequest, RegisterClientResponse}
use iam_service.Oauth.{supported_grant_types, grant_client_credentials}
use iam_service.Ports.{ClientRepo, Runtime}

module _ {W : Type 0} (run : Runtime W) (clients : ClientRepo W) where
  open run use {new_string, read, generate_from_password, encode_to_string, quote}

  -- `fmt.Errorf("%w: %q", ErrUnsupportedGrantType, gt)`
  abbrev pub unsupported : String → Error
  unsupported grant = wrap "" (sentinel unsupported_grant_type) (concat ": " (quote grant))

  -- The loop over the requested grant types.
  unfoldable pub check_grants : Bool → List String → M W (Unit {0})
  check_grants is_public [] = pure tt
  check_grants is_public (grant ∷ rest) =
      let later = check_grants is_public rest in
      if is_public && (grant == grant_client_credentials)
      then fail (sentinel public_client_credentials_grant)
      else if not (supported_grant_types grant)
      then fail (unsupported grant)
      else later

  -- The raw secret and its hash; both are empty for a public client.
  unfoldable pub new_secret : Bool → M W (String × String)
  new_secret true = pure ("", "")
  new_secret false = do
    raw_bytes ← relabel (at "ClientService.RegisterClient generating secret") (read 32)
    let raw = encode_to_string raw_bytes
    hash ← relabel (at "ClientService.RegisterClient hashing secret") (generate_from_password raw)
    pure (raw, hash)

  unfoldable pub register_client : RegisterClientRequest → M W RegisterClientResponse
  register_client req = do
    check_grants req.is_public req.grant_types
    secret ← new_secret req.is_public
    id ← new_string
    relabel (at "ClientService.RegisterClient") (
        clients.create (record {
          id = id;
          name = req.name;
          client_secret_hash = secret.1;
          redirect_uris = req.redirect_uris;
          scopes = req.scopes;
          grant_types = req.grant_types;
          is_first_party = req.is_first_party;
          created_at = 0;
        }))
    pure (record { client_id = id; client_secret = secret.0; name = req.name })
