-- ===== src/Web.antt =====
-- What the handlers use of Go's net/url and encoding/json, and what these document.
use iam_service.Prelude.{String, Bool, Option, ◌≡◌, ◌≢◌}
use iam_service.Dtos.{LoginRequest, RefreshRequest, RegisterClientRequest}

pub record Web : Type 1 where
  pub Url : Type 0
  pub Values : Type 0
  -- url.Parse; `none` is a non-nil error
  pub parse : String → Option Url
  pub is_abs : Url → Bool
  pub scheme : Url → String
  pub host : Url → String
  pub hostname : Url → String
  pub path : Url → String
  pub fragment : Url → String
  -- u.String()
  pub to_text : Url → String
  -- u.Query()
  pub query : Url → Values
  pub get : Values → String → String
  pub set : Values → String → String → Values
  -- u.RawQuery = q.Encode()
  pub with_query : Url → Values → Url
  -- json.NewDecoder(r.Body).Decode, by the type that it fills; `none` is a non-nil error
  pub decode_login : String → Option LoginRequest
  pub decode_refresh : String → Option RefreshRequest
  pub decode_client : String → Option RegisterClientRequest

-- `Set` replaces the values of its key alone; `Encode` writes what `Query` reads, and the query of
-- a URL is not a part of its target.
pub record IsWeb (n : Web) : Type 0 where
  pub get-set_self : (q : n.Values) (k v : String) → n.get (n.set q k v) k ≡ v
  pub get-set_other : (q : n.Values) (k j v : String) → k ≢ j → n.get (n.set q k v) j ≡ n.get q j
  pub query-with_query :
      (u : n.Url) (q : n.Values) (k : String) → n.get (n.query (n.with_query u q)) k ≡ n.get q k
  pub scheme-with_query : (u : n.Url) (q : n.Values) → n.scheme (n.with_query u q) ≡ n.scheme u
  pub host-with_query : (u : n.Url) (q : n.Values) → n.host (n.with_query u q) ≡ n.host u
  pub path-with_query : (u : n.Url) (q : n.Values) → n.path (n.with_query u q) ≡ n.path u
