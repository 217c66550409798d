-- ===== src/Examples/Web.antt =====
-- A net/url over a few texts, a validation engine that runs the rules, and requests for them.
use Prim.Native.String.{◌++◌ as concat}
use iam_service.Prelude.{
  String, List, [], ◌∷◌, ◌++◌, Bool, not, Option, none, some, ◌≡◌, refl, ◌==◌, eq_refl,
  eq-false_of_ne, Among, here, there, if◌then◌else◌,
}
use iam_service.Web.{Web, IsWeb}
use iam_service.Validator.Rules.{Rule, Field, FieldError, Engine, IsEngine, first_failure}

-- A query, the last value first.
abbrev pub Query : Type 0
Query = List (String × String)

pub record Address : Type 0 where
  pub scheme : String
  pub host : String
  pub path : String
  pub query : Query

unfoldable pub lookup : Query → String → String
lookup [] key = ""
lookup ((k, v) ∷ rest) key = if k == key then v else lookup rest key

unfoldable pub query_text : Query → String
query_text [] = ""
query_text ((k, v) ∷ rest) = concat (query_text rest) (concat "&" (concat k (concat "=" v)))

abbrev pub app : Address
app = record { scheme = "https"; host = "app"; path = "/cb"; query = [] }

abbrev pub login_page : Address
login_page = record { scheme = ""; host = ""; path = "/login"; query = [] }

abbrev pub front_door : Address
front_door = record { scheme = ""; host = ""; path = "/oauth/authorize"; query = [] }

abbrev pub parse : String → Option Address
parse s =
    if s == "https://app/cb"
    then some app
    else if s == "/login"
    then some login_page
    else if s == "/oauth/authorize"
    then some front_door
    else none

abbrev pub to_text : Address → String
to_text u = concat u.scheme (
    concat (if u.scheme == "" then "" else "://")
      (concat u.host (concat u.path (concat "?" (query_text u.query)))))

abbrev pub web : Web
web = record {
  Url = Address;
  Values = Query;
  parse = parse;
  is_abs = λ u. not (u.scheme == "");
  scheme = λ u. u.scheme;
  host = λ u. u.host;
  hostname = λ u. u.host;
  path = λ u. u.path;
  fragment = λ u. "";
  to_text = to_text;
  query = λ u. u.query;
  get = lookup;
  set = λ q k v. (k, v) ∷ q;
  with_query = λ u q. record u { query = q };
  decode_login = λ s.
      if s == "ann" then some (record { email = "ann@example.com"; password = "pw" }) else none;
  decode_refresh = λ s. none;
  decode_client = λ s. none;
}

pub web-IsWeb : IsWeb web
unfolding lookup
web-IsWeb = record {
  get-set_self = λ q k v. rw (eq_refl k) refl;
  get-set_other = λ q k j v ne. rw (eq-false_of_ne k j ne) refl;
  query-with_query = λ u q k. refl;
  scheme-with_query = λ u q. refl;
  host-with_query = λ u q. refl;
  path-with_query = λ u q. refl;
}

abbrev pub error_of : String → Option Rule → List FieldError
error_of name none = []
error_of name (some rule) = record { name = name; rule = rule } ∷ []

unfoldable pub engine : Engine
engine check [] = []
engine check (f ∷ rest) = error_of f.name (first_failure check f.value f.rules) ++ engine check rest

module _ {A : Type 0} where
  Among-append_left : (a : A) (xs ys : List A) → Among a xs → Among a (xs ++ ys)
  Among-append_left a _ ys here = here
  Among-append_left a _ ys (there h) = there (Among-append_left a _ ys h)

  Among-append_right : (a : A) (xs ys : List A) → Among a ys → Among a (xs ++ ys)
  Among-append_right a [] ys h = h
  Among-append_right a (x ∷ xs) ys h = there (Among-append_right a xs ys h)

-- Nothing that fails is left out.
Among-engine :
    (check : String → Bool) (f : Field) (rule : Rule)
    → first_failure check f.value f.rules ≡ some rule
    → (fields : List Field) → Among f fields
    → Among (record { name = f.name; rule = rule }) (engine check fields)
unfolding engine
Among-engine check f rule e _ here = rw e here
Among-engine check f rule e _ (there h) = Among-append_right _ _ _ (Among-engine check f rule e _ h)

-- What a report was made of.
abbrev Reason : (String → Bool) → List Field → FieldError → Type 0
Reason check fields e =
    (f : Field) × Among f fields
    × (f.name ≡ e.name)
    × (first_failure check f.value f.rules ≡ some e.rule)

-- The report of one field, before those of the rest.
first-Reason :
    (check : String → Bool) (f : Field) (rest : List Field) (e : FieldError)
    → (Among e (engine check rest) → Reason check rest e)
    → (found : Option Rule) → first_failure check f.value f.rules ≡ found
    → Among e (error_of f.name found ++ engine check rest)
    → Reason check (f ∷ rest) e
first-Reason check f rest e tail none h b =
    let (g, among, name, fails) = tail b in (g, there among, name, fails)
first-Reason check f rest e tail (some rule) h here = (f, here, refl, h)
first-Reason check f rest e tail (some rule) h (there b) =
    let (g, among, name, fails) = tail b in (g, there among, name, fails)

reported :
    (check : String → Bool) (fields : List Field) (e : FieldError)
    → Among e (engine check fields)
    → Reason check fields e
unfolding engine
reported check [] e a = elim a [ ]
reported check (f ∷ rest) e a =
    first-Reason check f rest e (λ b. reported check rest e b) (first_failure check f.value f.rules)
      refl a

pub engine-IsEngine : IsEngine engine
engine-IsEngine = record {
  reports = λ check fields f rule a e. Among-engine check f rule e fields a;
  reported = reported;
}
