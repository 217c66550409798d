-- ===== src/Spent/Expiry.antt =====
-- An authorization code that nobody exchanges in time.
use iam_service.Prelude.{String, ◌≤◌, ◌≡◌, ◌≢◌, subst, sym, arith}
use iam_service.Effect.{ok}
use iam_service.Dtos.{TokenRequest, TokenResponse}
use iam_service.Platform.{Platform, World, IsRedis, IsHost}
use iam_service.Repository.AuthCode.{auth_code_ttl, auth_code_key}
use iam_service.Service.Auth.{AuthorizeInput, issue_code}
use iam_service.App
use iam_service.App.Codes.{authorize-IsKept}
use iam_service.System.{Reach, elapsed}
use iam_service.Spent.Repositories.{IsSpent}
use iam_service.Spent.Steps.{Reach-LivesOut}
use iam_service.Spent.Lifetime.{LivesOut, LivesOut-new, LivesOut-none}
use iam_service.Spent.SingleUse.{exchange-spent}

-- From Authorize's issue of a code on: once the pauses since then add up to 60 seconds, no request
-- that presents the code gets tokens, whatever requests come between the pauses, of this code or of
-- any other, if Redis and the encoders keep their laws and the random source does not draw the same
-- code again meanwhile.
pub code_expires :
    (p : Platform) (law : IsRedis p.redis) (host : IsHost p.host) (key : p.host.PrivateKey)
    (input : AuthorizeInput) (uri state code : String) (req : TokenRequest) (resp : TokenResponse)
    (w w' v v' : World p) (between : Reach p key code w' v)
    → App.authorize p input w ≡ (ok (issue_code uri state code), w')
    → auth_code_ttl ≤ elapsed between
    → req.code ≡ code
    → App.exchange p key req v ≢ (ok resp, v')
code_expires p law host key input uri state code req resp w w' v v' between issued late same =
    let kept = authorize-IsKept p law host input uri state code w w' issued in
    let new : LivesOut auth_code_ttl 0 (law.view w'.kv (auth_code_key code)) =
      subst (LivesOut auth_code_ttl 0) (sym kept.held.held)
        (LivesOut-new auth_code_ttl kept.held.payload (omega arith)) in
    let still = Reach-LivesOut p law code key auth_code_ttl between new in
    let spent : IsSpent p law code v = LivesOut-none auth_code_ttl (elapsed between) _ late still in
    exchange-spent p law key req resp v v' (subst (λ c. IsSpent p law c v) (sym same) spent)
