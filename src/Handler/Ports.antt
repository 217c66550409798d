-- ===== src/Handler/Ports.antt =====
-- internal/handler/ports.go: what the handlers ask of the services.
use iam_service.Prelude.{String}
use iam_service.Effect.{M}
use iam_service.Dtos.{
  LoginRequest, RefreshResponse, RegisterClientRequest, RegisterClientResponse, TokenRequest,
  TokenResponse, JwksResponse,
}
use iam_service.Service.Auth.{LoginResult, AuthorizeInput, AuthorizeResult}

pub record AuthService (W : Type 0) : Type 0 where
  pub login : LoginRequest → M W LoginResult
  pub logout : String → M W (Unit {0})
  pub refresh_token : String → M W RefreshResponse
  pub authorize : AuthorizeInput → M W AuthorizeResult

pub record ClientService (W : Type 0) : Type 0 where
  pub register_client : RegisterClientRequest → M W RegisterClientResponse

pub record TokenGrantService (W : Type 0) : Type 0 where
  pub exchange : TokenRequest → M W TokenResponse

pub record TokenService : Type 0 where
  pub jwks : JwksResponse
