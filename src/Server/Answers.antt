-- ===== src/Server/Answers.antt =====
-- Which requests the server answers.
use iam_service.Prelude.{
  maybe, Bool, true, false, Option, none, some, ◌≡◌, ◌≢◌, refl, if◌then◌else◌,
}
use iam_service.Errors.{Error}
use iam_service.Effect.{Result, ok, err, panic, M, settled, respond}
use iam_service.Effect.Safe.{IsSafe}
use iam_service.Effect.Total.{Succeeds, IsTotal, IsTotal-pure}
use iam_service.Platform.{Platform, World}
use iam_service.Web.{Web}
use iam_service.Validator.Rules.{Engine}
use iam_service.Handler.Response.{Request}
use iam_service.Handler.Auth as AuthHandler
use iam_service.Handler.Token as TokenHandler
use iam_service.App.Panics.Services.{requests-IsSafe}
use iam_service.Server.{
  Endpoint, jwks, login, logout, refresh, authorize, token, register_client, Settings, handle,
}

module _ {A B : Type 0} where
  settled_value :
      (failed_with : Error → B) (finish : A → B) (r : Result A)
      → r ≢ panic
      → (b : B) × (settled failed_with finish r ≡ ok b)
  settled_value failed_with finish (ok a) h = (finish a, refl)
  settled_value failed_with finish (err e) h = (failed_with e, refl)
  settled_value failed_with finish panic h = absurd (h refl)

module _ {W A B : Type 0} where
  -- A handler that turns errors into responses ends with one, unless its service panics.
  IsTotal-respond :
      (failed_with : Error → B) (finish : A → B) (m : M W A)
      → IsSafe m
      → IsTotal (respond failed_with finish m)
  unfolding respond
  IsTotal-respond failed_with finish m safe = record {
    at = λ w. settled_value failed_with finish (m w).0 (safe.at w);
  }

module _ {W A : Type 0} where
  IsTotal-if : (b : Bool) (m n : M W A) → IsTotal m → IsTotal n → IsTotal (if b then m else n)
  IsTotal-if true m n tm tn = tm
  IsTotal-if false m n tm tn = tn

module _ {W A B : Type 0} where
  IsTotal-maybe :
      (m : M W A) (f : B → M W A) (o : Option B)
      → IsTotal m
      → ((b : B) → IsTotal (f b))
      → IsTotal (maybe m f o)
  unfolding maybe
  IsTotal-maybe m f none tm tf = tm
  IsTotal-maybe m f (some b) tm tf = tf b

ruleset total = (IsTotal-pure, IsTotal-respond, IsTotal-if, IsTotal-maybe)

module _ (p : Platform) (n : Web) (engine : Engine) (s : Settings p) where
  answers : (endpoint : Endpoint) (r : Request n) → IsTotal (handle p n engine s endpoint r)
  unfolding handle AuthHandler.login AuthHandler.login_decoded AuthHandler.logout
      AuthHandler.refresh AuthHandler.refresh_decoded AuthHandler.authorize
      AuthHandler.authorize_parsed AuthHandler.register_client AuthHandler.register_decoded
      TokenHandler.token TokenHandler.token_form TokenHandler.exchange_valid
  answers jwks r = IsTotal-pure _
  answers login r = search (total, (requests-IsSafe p s.key).2) depth 12
  answers logout r = search (total, (requests-IsSafe p s.key).3) depth 12
  answers refresh r = search (total, (requests-IsSafe p s.key).5) depth 12
  answers authorize r = search (total, (requests-IsSafe p s.key).1) depth 12
  answers token r = search (total, (requests-IsSafe p s.key).0) depth 12
  answers register_client r = search (total, (requests-IsSafe p s.key).7) depth 12

  -- Every endpoint answers every request with a response, on every state and whatever Redis, MySQL
  -- and the libraries answer.
  pub handle-Succeeds :
      (endpoint : Endpoint) (r : Request n) (w : World p)
      → Succeeds (handle p n engine s endpoint r) w
  handle-Succeeds endpoint r w = (answers endpoint r).at w
