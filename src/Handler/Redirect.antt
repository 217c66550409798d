-- ===== src/Handler/Redirect.antt =====
-- internal/httpx/httpx.go: what RedirectWith makes of its base and its pairs.
use iam_service.Prelude.{
  String, List, [], ◌∷◌, some, ◌≡◌, ◌∙◌, ap, subst, refl, ◌==◌, eq_iff, ne_of_eq-false, Bool-cases,
  inl, inr, if◌then◌else◌,
}
use iam_service.Web.{Web, IsWeb}
use iam_service.Handler.Response.{Response, redirect_body, merge, redirect_with}

-- What a key holds behind the pairs: the last value that is not empty, or what it held before.
unfoldable pub overlaid : List (String × String) → (key before : String) → String
overlaid [] key before = before
overlaid ((k, v) ∷ rest) key before =
    overlaid rest key (if v == "" then before else if k == key then v else before)

module _ (n : Web) (law : IsWeb n) where
  get-merge :
      (kv : List (String × String)) (q : n.Values) (key : String)
      → n.get (merge n q kv) key ≡ overlaid kv key (n.get q key)
  unfolding merge overlaid
  get-merge [] q key = refl
  get-merge ((k, v) ∷ rest) q key = elim (Bool-cases (v == "")) [
    | inl e ↦ rw e (get-merge rest q key)
    | inr e ↦ elim (Bool-cases (k == key)) [
      | inl same ↦
          rw (e, same)
            (get-merge rest (n.set q k v) key
              ∙ ap (overlaid rest key) (
                  subst (λ x. n.get (n.set q k v) x ≡ v) ((eq_iff k key).0 same)
                    (law.get-set_self q k v)))
      | inr other ↦
          rw (e, other)
            (get-merge rest (n.set q k v) key
              ∙ ap (overlaid rest key) (law.get-set_other q k key v (ne_of_eq-false k key other)))
    ]
  ]

  -- A redirect to a URL of the base's scheme, host and path that carries the pairs.
  pub record IsCarried (u : n.Url) (kv : List (String × String)) (resp : Response) : Type 0 where
    pub target : n.Url
    pub answered :
        resp ≡ record { status = 302; headers = []; body = redirect_body (n.to_text target) }
    pub scheme : n.scheme target ≡ n.scheme u
    pub host : n.host target ≡ n.host u
    pub path : n.path target ≡ n.path u
    pub query :
        (key : String) → n.get (n.query target) key ≡ overlaid kv key (n.get (n.query u) key)

  -- A base that parses is answered with a redirect to its own scheme, host and path, whose query
  -- holds under each key of the pairs the last value that is not empty and otherwise what the base
  -- held, if net/url keeps its laws.
  pub redirect_with-IsCarried :
      (base : String) (kv : List (String × String)) (u : n.Url)
      → n.parse base ≡ some u
      → IsCarried u kv (redirect_with n base kv)
  unfolding redirect_with
  redirect_with-IsCarried base kv u parsed = rw parsed (record {
    target = n.with_query u (merge n (n.query u) kv);
    answered = refl;
    scheme = law.scheme-with_query u _;
    host = law.host-with_query u _;
    path = law.path-with_query u _;
    query = λ key. law.query-with_query u _ key ∙ get-merge kv (n.query u) key;
  })
