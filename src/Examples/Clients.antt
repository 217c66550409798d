-- ===== src/Examples/Clients.antt =====
-- Clients, sessions of clients and refresh tokens on the platform in memory.
use iam_service.Prelude.{String, List, [], ◌∷◌, true, false, ◌≡◌, refl, ◌↔◌}
use iam_service.Effect.{ok, on_error, ◌>>=◌}
use iam_service.Dtos.{RegisterClientRequest, RegisterClientResponse, RefreshResponse}
use iam_service.Service.Client as ClientService
use iam_service.Service.Client.Registration.{Verdict, check_grants-Verdict}
use iam_service.Service.Auth.Refresh.{IsRefreshed, refresh_token_iff}
use iam_service.Repository.Client as ClientRepository
use iam_service.Oauth.{supported_grant_types}
use iam_service.App
use iam_service.Platform.{World}
use iam_service.Models.{RefreshToken}
use iam_service.Repository.RefreshToken as RefreshTokenRepository
use iam_service.Repository.RefreshToken.Active.{revoke_all_for_user-get_active}
use iam_service.App.Clients.{IsEnrolled, register_client-IsEnrolled}
use iam_service.App.Panics.Services.{requests-IsSafe}
use iam_service.Effect.Safe.{IsSafe}
use iam_service.Examples.Memory.{keep, change_where, tally, platform}
use iam_service.Examples.Laws.{sql-IsSql, host-IsHost}
use iam_service.Examples.Flow.{running, before, redeem_it, granted_world}

abbrev mixed : List String
mixed = "authorization_code" ∷ "client_credentials" ∷ []

check_grants-Verdict_example :
    Verdict
      (App.runtime platform)
      (App.client_repo platform)
      true
      mixed
      (ClientService.check_grants
        (App.runtime platform)
        (App.client_repo platform)
        true
        mixed
        before).0
    × ((ClientService.check_grants
          (App.runtime platform)
          (App.client_repo platform)
          true
          mixed
          before).1
        ≡ before)
check_grants-Verdict_example =
    check_grants-Verdict (App.runtime platform) (App.client_repo platform) true mixed before

abbrev enrol : RegisterClientRequest
enrol = record {
  name = "Backend";
  redirect_uris = "https://api/cb" ∷ [];
  scopes = "read" ∷ [];
  grant_types = "authorization_code" ∷ [];
  is_first_party = false;
  is_public = false;
}

abbrev enrolled : RegisterClientResponse
enrolled = record { client_id = "iiiiii"; client_secret = "iiiii"; name = "Backend" }

register_client-IsEnrolled_example :
    IsEnrolled platform enrol enrolled (App.register_client platform enrol before).1
unfolding ◌>>=◌ on_error ClientService.register_client ClientService.check_grants
    ClientService.new_secret ClientRepository.create supported_grant_types tally
register_client-IsEnrolled_example =
    register_client-IsEnrolled platform host-IsHost enrol enrolled before
      (App.register_client platform enrol before).1 refl

requests-IsSafe_example : IsSafe (App.exchange platform tt redeem_it)
requests-IsSafe_example = (requests-IsSafe platform tt).0 redeem_it

abbrev refreshed : RefreshResponse
refreshed = record { access_token = "jwt"; access_token_expiry_in = 900 }

refresh_token_iff_example :
    (App.refresh_token platform tt "iiiiiii" granted_world ≡ (ok refreshed, granted_world))
    ↔ IsRefreshed
        (App.runtime platform)
        (App.user_repo platform)
        (App.refresh_token_repo platform)
        (App.token_svc platform tt)
        "iiiiiii"
        refreshed
        granted_world
        granted_world
refresh_token_iff_example =
    refresh_token_iff (App.runtime platform) (App.user_repo platform)
      (App.refresh_token_repo platform) (App.token_svc platform tt) "iiiiiii" refreshed
      granted_world granted_world

abbrev signed_off : World platform
signed_off = (RefreshTokenRepository.revoke_all_for_user platform "u1" granted_world).1

revoke_all_for_user-get_active_example : ◌≡◌ {A = List RefreshToken} [] []
unfolding running RefreshTokenRepository.revoke_all_for_user
    RefreshTokenRepository.get_active_by_user_id RefreshTokenRepository.is_active_of keep
    change_where
revoke_all_for_user-get_active_example =
    revoke_all_for_user-get_active platform sql-IsSql "u1" [] granted_world signed_off signed_off
      refl refl
