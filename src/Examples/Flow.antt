-- ===== src/Examples/Flow.antt =====
-- The authorization code flow on the platform in memory.
use iam_service.Prelude.{String, [], ◌∷◌, true, none, some, ◌≡◌, ◌≢◌, refl, ◌==◌, if◌then◌else◌}
use iam_service.Effect.{ok, on_error, ◌>>=◌}
use iam_service.Models.{User, Client}
use iam_service.Dtos.{TokenRequest, TokenResponse}
use iam_service.Platform.{World}
use iam_service.Service.TokenGrant as TokenGrantService
use iam_service.Service.Token as TokenService
use iam_service.Service.Auth as AuthService
use iam_service.Service.Auth.{AuthorizeInput, AuthorizeResult, issue_code}
use iam_service.Repository.User as UserRepository
use iam_service.Repository.Client as ClientRepository
use iam_service.Repository.RefreshToken as RefreshTokenRepository
use iam_service.Repository.Session as SessionRepository
use iam_service.Repository.AuthCode as AuthCodeRepository
use iam_service.Cache
use iam_service.App
use iam_service.Oauth.{supported_grant_types}
use iam_service.Text.{fields, join}
use iam_service.Utils.{contains_all, contains_all_iff}
use iam_service.Service.Auth.Authorize.{IsJustified, authorize-IsJustified}
use iam_service.Service.TokenGrant.Soundness.{IsGranted, authorization_code_grant-IsGranted}
use iam_service.Spent.SingleUse.{single_use}
use iam_service.System.{start}
use iam_service.Examples.Laws.{redis-IsRedis}
use iam_service.Prelude.{contains, ◌↔◌, All, Among}
use iam_service.Examples.Memory.{first, tally, same_code, same_session, a_challenge, platform}

abbrev pub spa : Client
spa = record {
  id = "spa";
  name = "SPA";
  client_secret_hash = "";
  redirect_uris = "https://app/cb" ∷ [];
  scopes = "read" ∷ "write" ∷ [];
  grant_types = "authorization_code" ∷ [];
  is_first_party = true;
  created_at = 0;
}

abbrev pub ann : User
ann = record { id = "u1"; email = "ann@example.com"; password_hash = "$2pw"; created_at = 0 }

-- Ann is logged in under the session "s".
abbrev pub before : World platform
before = record {
  kv = λ k. if k == "session:s" then some (record { value = "session"; ttl = some 1000 }) else none;
  db = record { users = ann ∷ []; clients = spa ∷ []; refresh_tokens = [] };
  os = 5;
}

abbrev pub ask : AuthorizeInput
ask = record {
  request = record {
    response_type = "code";
    client_id = "spa";
    redirect_uri = "https://app/cb";
    scope = " read  write";
    state = "12345678";
    code_challenge = a_challenge;
    code_challenge_method = "S256";
    nonce = "";
    prompt = "";
    access_type = "";
  };
  session_id = "s";
}

abbrev pub redeem_it : TokenRequest
redeem_it = record {
  grant_type = "authorization_code";
  code = "iiiii";
  redirect_uri = "https://app/cb";
  code_verifier = "a-verifier-of-forty-three-characters-abcdef";
  refresh_token = "";
  scope = "";
  client_id = "spa";
  client_secret = "";
}

-- What the runs below compute through.
unfoldable pub running : Unit {0}
unfolding ◌>>=◌ on_error AuthService.authorize AuthService.check AuthService.issue
    AuthService.session_by_id TokenGrantService.exchange TokenGrantService.authorization_code_grant
    TokenGrantService.authenticate TokenGrantService.redeem TokenGrantService.mint
    TokenGrantService.hash_token TokenService.issue_access_token TokenService.issue_refresh_token
    UserRepository.get_by_id ClientRepository.get_by_id RefreshTokenRepository.create
    SessionRepository.get AuthCodeRepository.create AuthCodeRepository.consume Cache.get Cache.set
    Cache.get_del contains contains_all fields join first tally same_code same_session
    supported_grant_types
running = tt

abbrev pub issued_world : World platform
issued_world = (App.authorize platform ask before).1

issued : (App.authorize platform ask before).0 ≡ ok (issue_code "https://app/cb" "12345678" "iiiii")
unfolding running
issued = refl

granted :
    (App.exchange platform tt redeem_it issued_world).0
    ≡ ok (record {
      access_token = "jwt";
      token_type = "Bearer";
      expires_in = 900;
      scope = "read write";
      refresh_token = "iiiiiii";
    })
unfolding running
granted = refl

abbrev pub tokens : TokenResponse
tokens = record {
  access_token = "jwt";
  token_type = "Bearer";
  expires_in = 900;
  scope = "read write";
  refresh_token = "iiiiiii";
}

abbrev pub granted_world : World platform
granted_world = (App.exchange platform tt redeem_it issued_world).1

authorize-IsJustified_example :
    IsJustified
      (App.client_repo platform)
      (App.session_repo platform)
      (App.auth_code_repo platform)
      ask
      (issue_code "https://app/cb" "12345678" "iiiii")
      before
      issued_world
unfolding running
authorize-IsJustified_example =
    authorize-IsJustified (App.client_repo platform) (App.session_repo platform)
      (App.auth_code_repo platform) ask (issue_code "https://app/cb" "12345678" "iiiii") before
      issued_world refl

authorization_code_grant-IsGranted_example :
    IsGranted
      (App.runtime platform)
      (App.client_repo platform)
      (App.user_repo platform)
      (App.auth_code_repo platform)
      (App.refresh_token_repo platform)
      (App.token_svc platform tt)
      redeem_it
      tokens
      issued_world
      granted_world
unfolding running
authorization_code_grant-IsGranted_example =
    authorization_code_grant-IsGranted (App.runtime platform) (App.client_repo platform)
      (App.user_repo platform) (App.auth_code_repo platform) (App.refresh_token_repo platform)
      (App.token_svc platform tt) redeem_it tokens issued_world granted_world refl

single_use_example : App.exchange platform tt redeem_it granted_world ≢ (ok tokens, granted_world)
unfolding running
single_use_example =
    single_use platform redis-IsRedis tt redeem_it redeem_it tokens tokens issued_world
      granted_world granted_world granted_world refl start refl

contains_all_iff_example :
    (contains_all ("read" ∷ "write" ∷ []) ("write" ∷ []) ≡ true)
    ↔ All {A = String} (λ s. Among s ("read" ∷ "write" ∷ [])) ("write" ∷ [])
contains_all_iff_example = contains_all_iff ("read" ∷ "write" ∷ []) ("write" ∷ [])
