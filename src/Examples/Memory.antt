-- ===== src/Examples/Memory.antt =====
-- A platform in memory: Redis as a function of the key, tables as lists, and a counter for time,
-- identifiers and randomness.
use Prim.Native.String.{◌++◌ as concat, count}
use Prim.Native.Nat.{◌/◌}
use iam_service.Prelude.{
  ℕ, ℤ, pos, negsuc, ◌*◌, zero, suc, String, List, [], ◌∷◌, Bool, true, false, not, Option, none,
  some, ◌==◌, contains, if◌then◌else◌, leb, ◌&&◌,
}
use iam_service.Errors.{redis_nil, no_rows, fault}
use iam_service.Effect.{Reply, done, failed}
use iam_service.Models.{User, Client, RefreshToken, Session, AuthCode}
use iam_service.Platform.{Entry, Redis, lives_for, aged, Table, Sql, Host, Bytes, Platform}

abbrev pub Store : Type 0
Store = String → Option Entry

abbrev pub answer : Option Entry → Reply String
answer none = failed redis_nil
answer (some e) = done e.value

-- In whole seconds, rounded down.
abbrev pub remaining : Option Entry → ℤ
remaining none = negsuc 1
remaining (some e) = elim e.ttl [
  | none ↦ negsuc 0
  | some left ↦ pos (left / 1000000000 * 1000000000)
]

abbrev pub redis : Redis
redis = record {
  State = Store;
  set = λ k v ttl s.
      (done tt, λ j. if k == j then some (record { value = v; ttl = lives_for ttl }) else s j);
  get = λ k s. (answer (s k), s);
  get_del = λ k s. (answer (s k), λ j. if k == j then none else s j);
  del = λ ks s. (done tt, λ j. if contains ks j then none else s j);
  exists = λ k s. (done (elim (s k) [ none ↦ 0 | some e ↦ 1 ]), s);
  ttl = λ k s. (done (remaining (s k)), s);
  wait = λ n s k. aged n (s k);
}

module _ {Row : Type 0} where
  unfoldable pub first : (Row → Bool) → List Row → Reply Row
  first test [] = failed no_rows
  first test (r ∷ rs) = if test r then done r else first test rs

  unfoldable pub keep : (Row → Bool) → List Row → List Row
  keep test [] = []
  keep test (r ∷ rs) = let rest = keep test rs in if test r then r ∷ rest else rest

  unfoldable pub change_where : (Row → Bool) → (Row → Row) → List Row → List Row
  change_where test change [] = []
  change_where test change (r ∷ rs) = (if test r then change r else r) ∷ change_where test change rs

  -- A table that the state holds as a list; NOW() is 100.
  abbrev pub table : {S : Type 0} → (S → List Row) → (S → List Row → S) → Table S Row
  table rows put = record {
    find = λ test s. (first (test 100) (rows s), s);
    select = λ test s. (done (keep (test 100) (rows s)), s);
    insert = λ row s. (done tt, put s (row 100 ∷ rows s));
    update = λ test change s. (done tt, put s (change_where (test 100) (change 100) (rows s)));
    delete = λ test s. (done tt, put s (keep (λ r. not (test 100 r)) (rows s)));
  }

pub record Tables : Type 0 where
  pub users : List User
  pub clients : List Client
  pub refresh_tokens : List RefreshToken

abbrev pub put_users : Tables → List User → Tables
put_users s rows = record s { users = rows }

abbrev pub put_clients : Tables → List Client → Tables
put_clients s rows = record s { clients = rows }

abbrev pub put_tokens : Tables → List RefreshToken → Tables
put_tokens s rows = record s { refresh_tokens = rows }

abbrev pub sql : Sql
sql = record {
  State = Tables;
  text_eq = λ a b. a == b;
  users = table (λ s. s.users) put_users;
  clients = table (λ s. s.clients) put_clients;
  refresh_tokens = table (λ s. s.refresh_tokens) put_tokens;
}

-- As many strokes as the number.
unfoldable pub tally : ℕ → String
tally zero = ""
tally (suc n) = concat "i" (tally n)

-- The session and the code that the examples keep in Redis: the encoders know no other.
abbrev pub a_session : Session
a_session = record { user_id = "u1"; email = "ann@example.com"; created_at = 7 }

-- The challenge of every verifier of 43 characters.
abbrev pub a_challenge : String
a_challenge = "iiiiiiiiiiiiiiiiiiiiiiiiiiiiiiiiiiiiiiiiiii"

abbrev pub a_code : AuthCode
a_code = record {
  client_id = "spa";
  user_id = "u1";
  redirect_uri = "https://app/cb";
  scope = "read" ∷ "write" ∷ [];
  code_challenge = a_challenge;
  code_challenge_method = "S256";
  nonce = "";
  created_at = 7;
}

unfoldable pub same_texts : List String → List String → Bool
same_texts [] [] = true
same_texts (x ∷ xs) (y ∷ ys) = x == y && same_texts xs ys
same_texts _ _ = false

abbrev same_number : ℕ → ℕ → Bool
same_number a b = leb a b && leb b a

unfoldable pub same_session : Session → Session → Bool
same_session a b =
    a.user_id == b.user_id && a.email == b.email && same_number a.created_at b.created_at

unfoldable pub same_code : AuthCode → AuthCode → Bool
unfolding same_texts
same_code a b =
    a.client_id == b.client_id
    && a.user_id == b.user_id
    && a.redirect_uri == b.redirect_uri
    && same_texts a.scope b.scope
    && a.code_challenge == b.code_challenge
    && a.code_challenge_method == b.code_challenge_method
    && a.nonce == b.nonce
    && same_number a.created_at b.created_at

abbrev pub encoded : Bool → String → Reply String
encoded true label = done label
encoded false label = failed (fault "json")

abbrev pub marshal_session : Session → Reply String
marshal_session a = encoded (same_session a a_session) "session"

abbrev pub marshal_auth_code : AuthCode → Reply String
marshal_auth_code a = encoded (same_code a a_code) "code"

abbrev pub head_tally : Bytes → String
head_tally [] = ""
head_tally (b ∷ bs) = tally b

abbrev pub host : Host
host = record {
  State = ℕ;
  now = λ s. (7, s);
  new_string = λ s. (tally s, suc s);
  read = λ n s. (done (s ∷ []), suc s);
  generate_from_password = λ password s. (done (concat "$2" password), s);
  compare_hash_and_password = λ hash password. hash == concat "$2" password;
  sum256 = λ s. count s ∷ [];
  hex = head_tally;
  encode_to_string = head_tally;
  quote = λ s. concat "'" (concat s "'");
  marshal_session = marshal_session;
  unmarshal_session = λ s. if s == "session" then done a_session else failed (fault "json");
  marshal_auth_code = marshal_auth_code;
  unmarshal_auth_code = λ s. if s == "code" then done a_code else failed (fault "json");
  new_numeric_date = λ t. t;
  PrivateKey = Unit {0};
  signed_string = λ key claims. done "jwt";
}

abbrev pub platform : Platform
platform = record { redis = redis; sql = sql; host = host }
