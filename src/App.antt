-- ===== src/App.antt =====
-- internal/app/app.go: the composition root. The repositories are the services' collaborators, over
-- the state of the three systems that they call.
use iam_service.Prelude.{String, Option}
pub mod Clients
pub mod Codes
pub mod Exchange
pub mod Minted
pub mod Sessions
pub mod Panics
pub mod Verified
use iam_service.Effect.{M}
use iam_service.Models.{User, Session}
use iam_service.Dtos.{
  LoginRequest, RefreshResponse, RegisterClientRequest, RegisterClientResponse, TokenRequest,
  TokenResponse,
}
use iam_service.Ports.{
  UserRepo, ClientRepo, RefreshTokenRepo, SessionRepo, AuthCodeRepo, TokenIssuer, Runtime,
}
use iam_service.Platform.{Platform, World, on_host, on_os}
use iam_service.Repository.User as UserRepository
use iam_service.Repository.Client as ClientRepository
use iam_service.Repository.RefreshToken as RefreshTokenRepository
use iam_service.Repository.Session as SessionRepository
use iam_service.Repository.AuthCode as AuthCodeRepository
use iam_service.Service.Token as TokenService
use iam_service.Service.Client as ClientService
use iam_service.Service.TokenGrant as TokenGrantService
use iam_service.Service.Auth as AuthService
use iam_service.Service.Auth.{RegisterInput, LoginResult, AuthorizeInput, AuthorizeResult}

module _ (p : Platform) where
  abbrev pub runtime : Runtime (World p)
  runtime = record {
    now = on_host p p.host.now;
    new_string = on_host p p.host.new_string;
    read = λ n. on_os p (p.host.read n);
    generate_from_password = λ password. on_os p (p.host.generate_from_password password);
    compare_hash_and_password = p.host.compare_hash_and_password;
    sum256 = p.host.sum256;
    hex = p.host.hex;
    encode_to_string = p.host.encode_to_string;
    quote = p.host.quote;
    new_numeric_date = p.host.new_numeric_date;
  }

  abbrev pub user_repo : UserRepo (World p)
  user_repo = record {
    get_by_email = UserRepository.get_by_email p;
    get_by_id = UserRepository.get_by_id p;
    create = UserRepository.create p;
  }

  abbrev pub client_repo : ClientRepo (World p)
  client_repo = record {
    get_by_id = ClientRepository.get_by_id p;
    create = ClientRepository.create p;
  }

  abbrev pub refresh_token_repo : RefreshTokenRepo (World p)
  refresh_token_repo = record {
    get_token_by_hash = RefreshTokenRepository.get_token_by_hash p;
    create = RefreshTokenRepository.create p;
  }

  abbrev pub session_repo : SessionRepo (World p)
  session_repo = record {
    create = SessionRepository.create p;
    get = SessionRepository.get p;
    destroy = SessionRepository.destroy p;
  }

  abbrev pub auth_code_repo : AuthCodeRepo (World p)
  auth_code_repo = record {
    create = AuthCodeRepository.create p;
    consume = AuthCodeRepository.consume p;
  }

  module _ (key : p.host.PrivateKey) where
    abbrev pub token_svc : TokenIssuer (World p)
    token_svc = record {
      issue_access_token = TokenService.issue_access_token runtime (p.host.signed_string key);
      issue_refresh_token = TokenService.issue_refresh_token runtime (p.host.signed_string key);
    }

    -- The services of `App`, each over the repositories that `New` gives it.
    abbrev pub exchange : TokenRequest → M (World p) TokenResponse
    exchange =
        TokenGrantService.exchange runtime client_repo user_repo auth_code_repo refresh_token_repo
          token_svc

    abbrev pub refresh_token : String → M (World p) RefreshResponse
    refresh_token = AuthService.refresh_token runtime user_repo refresh_token_repo token_svc

  abbrev pub authorize : AuthorizeInput → M (World p) AuthorizeResult
  authorize = AuthService.authorize client_repo session_repo auth_code_repo

  abbrev pub register : RegisterInput → M (World p) User
  register = AuthService.register runtime user_repo session_repo

  abbrev pub login : LoginRequest → M (World p) LoginResult
  login = AuthService.login runtime user_repo session_repo

  abbrev pub logout : String → M (World p) (Unit {0})
  logout = AuthService.logout session_repo

  abbrev pub session_by_id : String → M (World p) (Option Session)
  session_by_id = AuthService.session_by_id session_repo

  abbrev pub register_client : RegisterClientRequest → M (World p) RegisterClientResponse
  register_client = ClientService.register_client runtime client_repo
