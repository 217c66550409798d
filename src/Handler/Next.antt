-- ===== src/Handler/Next.antt =====
-- internal/handler/auth.go: where a browser goes after its login.
use iam_service.Text.{has_prefix}
use iam_service.Prelude.{
  String, true, false, ◌||◌, not, Option, none, some, ◌≡◌, ◌⊎◌, inl, inr, refl, ◌==◌, eq_iff,
  Bool-cases, arith, if◌then◌else◌,
}
use iam_service.Web.{Web}

module _ (n : Web) where
  abbrev pub internal_path : Option n.Url → String
  internal_path none = "/"
  internal_path (some u) =
      if n.is_abs u || not (n.host u == "")
      then "/"
      else if not (n.path u == "/oauth/authorize")
      then "/"
      else n.to_text u

  unfoldable pub safe_next : String → String
  safe_next next =
      if next == ""
      then "/"
      else if not (has_prefix next "/") || has_prefix next "//"
      then "/"
      else internal_path (n.parse next)

  -- A path of this service: the authorize endpoint, with no scheme and no host.
  pub record IsInternal (next : String) (target : String) : Type 0 where
    pub u : n.Url
    pub parsed : n.parse next ≡ some u
    pub rendered : target ≡ n.to_text u
    pub relative : n.is_abs u ≡ false
    pub no_host : n.host u ≡ ""
    pub path : n.path u ≡ "/oauth/authorize"
    pub rooted : has_prefix next "/" ≡ true
    pub single : has_prefix next "//" ≡ false

  internal_path-IsInternal :
      (next : String) (found : Option n.Url)
      → n.parse next ≡ found
      → has_prefix next "/" ≡ true
      → has_prefix next "//" ≡ false
      → (internal_path found ≡ "/") ⊎ IsInternal next (internal_path found)
  internal_path-IsInternal next none e rooted single = inl refl
  internal_path-IsInternal next (some u) e rooted single =
      elim (Bool-cases (n.is_abs u || not (n.host u == ""))) [
        | inl away ↦ inl (rw away refl)
        | inr here ↦ elim (Bool-cases (n.path u == "/oauth/authorize")) [
          | inr other ↦ inl (rw (here, other) refl)
          | inl path ↦ inr (
              rw (here, path)
                (record {
                  u = u;
                  parsed = e;
                  rendered = refl;
                  relative = ground arith;
                  no_host = (eq_iff _ _).0 (ground arith);
                  path = (eq_iff _ _).0 path;
                  rooted = rooted;
                  single = single;
                }))
        ]
      ]

  -- The target after a login is the root, or it is what the URL of a rooted path renders to that
  -- names no scheme and no host and leads to the authorize endpoint.
  pub safe_next-IsInternal :
      (next : String) → (safe_next next ≡ "/") ⊎ IsInternal next (safe_next next)
  unfolding safe_next
  safe_next-IsInternal next = elim (Bool-cases (next == "")) [
    | inl e ↦ inl (rw e refl)
    | inr full ↦ elim (Bool-cases (not (has_prefix next "/") || has_prefix next "//")) [
      | inl bad ↦ inl (rw (full, bad) refl)
      | inr good ↦
          rw (full, good)
            (internal_path-IsInternal next (n.parse next) refl (ground arith) (ground arith))
    ]
  ]
