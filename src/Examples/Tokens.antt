-- ===== src/Examples/Tokens.antt =====
-- An access token that is issued and validated, with a host that signs one claims set.
use iam_service.Prelude.{
  ℕ, [], ◌+◌, ◌≤◌, ◌<◌, String, Bool, true, false, Option, none, some, ◌≡◌, ◌&&◌, ◌==◌, eq_iff,
  refl, ap, leb, ltb, arith, Bool-cases, inl, inr,
}
use iam_service.Errors.{Error, fault}
use iam_service.Effect.{Reply, done, failed, err, ◌>>=◌}
use iam_service.Models.{IamClaims, AccessToken}
use iam_service.Platform.{Host, Platform, World, Jwt, Token, IsJwt}
use iam_service.Service.Token as TokenService
use iam_service.Service.Token.{access_token_ttl, second}
use iam_service.Service.Token.Validate.{validate}
use iam_service.App.Verified.{IsVerified, issue_access_token-validate, issue_access_token-expires}
use iam_service.Examples.Memory.{tally, host, redis, sql}

abbrev a_claims : IamClaims
a_claims = record {
  user_id = "u1";
  email = "ann@example.com";
  client_id = "spa";
  scope = "read";
  jti = "iiiii";
  issued_at = 6;
  expires_at = 5 + access_token_ttl;
}

abbrev same_number : ℕ → ℕ → Bool
same_number a b = leb a b && leb b a

unfoldable same_claims : IamClaims → IamClaims → Bool
same_claims a b =
    a.user_id == b.user_id
    && a.email == b.email
    && a.client_id == b.client_id
    && a.scope == b.scope
    && a.jti == b.jti
    && same_number a.issued_at b.issued_at
    && same_number a.expires_at b.expires_at

abbrev signed_if : Bool → Reply String
signed_if true = done "jwt"
signed_if false = failed (fault "rsa")

-- The state counts nanoseconds.
abbrev signer : Host
signer = record host {
  now = λ s. (s, s);
  signed_string = λ key claims. signed_if (same_claims claims a_claims);
}

abbrev parsed : Bool → Option (Unit {0}) → Reply Token
parsed true (some key) = done (record { claims = some a_claims; valid = true })
parsed true none = failed (fault "token is unverifiable")
parsed false _ = failed (fault "token is expired")

abbrev jwt : Jwt signer
jwt = record {
  PublicKey = Unit {0};
  public_key = λ key. tt;
  parse_with_claims = λ key_func raw s. (parsed (ltb s a_claims.expires_at) (key_func true), s);
}

same_claims_sound : (a : IamClaims) → same_claims a a_claims ≡ true → a ≡ a_claims
unfolding same_claims
same_claims_sound a h =
    let user = (eq_iff a.user_id a_claims.user_id).0 (ground arith) in
    let email = (eq_iff a.email a_claims.email).0 (ground arith) in
    let client = (eq_iff a.client_id a_claims.client_id).0 (ground arith) in
    let scope = (eq_iff a.scope a_claims.scope).0 (ground arith) in
    let jti = (eq_iff a.jti a_claims.jti).0 (ground arith) in
    let issued : a.issued_at ≡ a_claims.issued_at = ground arith in
    let expires : a.expires_at ≡ a_claims.expires_at = ground arith in
    λ i. record {
      user_id = user i;
      email = email i;
      client_id = client i;
      scope = scope i;
      jti = jti i;
      issued_at = issued i;
      expires_at = expires i;
    }

signed_claims :
    (claims : IamClaims) (raw : String)
    → signer.signed_string tt claims ≡ done raw
    → claims ≡ a_claims
signed_claims claims raw h = elim (Bool-cases (same_claims claims a_claims)) [
  | inl e ↦ same_claims_sound claims e
  | inr e ↦ absurd (cc (rw e at h))
]

in_time :
    (claims : IamClaims) (s : ℕ)
    → claims ≡ a_claims
    → s < claims.expires_at
    → ltb s a_claims.expires_at ≡ true
in_time claims s same soon =
    let expires = ap (λ (x : IamClaims). x.expires_at) same in ground (arith, expires, soon)

too_late :
    (claims : IamClaims) (s : ℕ)
    → claims ≡ a_claims
    → claims.expires_at ≤ s
    → ltb s a_claims.expires_at ≡ false
too_late claims s same late =
    let expires = ap (λ (x : IamClaims). x.expires_at) same in ground (arith, expires, late)

jwt-IsJwt : IsJwt signer jwt
jwt-IsJwt = record {
  date_below = λ t. omega arith;
  date_above = λ t. omega arith;
  date_fixed = λ t. refl;
  parse_valid = λ key claims raw key_func s signed numeric opens soon.
      let same = signed_claims claims raw signed in
      rw (in_time claims s same soon, opens, same) refl;
  parse_expired = λ key claims raw key_func s signed numeric late.
      let same = signed_claims claims raw signed in
      (fault "token is expired", rw (too_late claims s same late) refl);
}

abbrev signing : Platform
signing = record { redis = redis; sql = sql; host = signer }

abbrev at_time : ℕ → World signing
at_time s = record {
  kv = λ k. none;
  db = record { users = []; clients = []; refresh_tokens = [] };
  os = s;
}

abbrev token : AccessToken
token = record { access_token_string = "jwt"; access_token_expires_in = 900 }

issue_access_token-validate_example :
    IsVerified signing jwt jwt-IsJwt tt "u1" "ann@example.com" "spa" "read" "jwt" (at_time 9)
unfolding TokenService.issue_access_token ◌>>=◌ tally same_claims
issue_access_token-validate_example =
    issue_access_token-validate signing jwt jwt-IsJwt tt "u1" "ann@example.com" "spa" "read" token
      (at_time 5) (at_time 6) (at_time 9) refl (omega arith)

issue_access_token-expires_example :
    (e : Error) × ((validate signing jwt tt "jwt" (at_time (5 + access_token_ttl))).0 ≡ err e)
unfolding TokenService.issue_access_token ◌>>=◌ tally same_claims
issue_access_token-expires_example =
    issue_access_token-expires signing jwt jwt-IsJwt tt "u1" "ann@example.com" "spa" "read" token
      (at_time 5) (at_time 6) (at_time (5 + access_token_ttl)) refl (omega arith)
