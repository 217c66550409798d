-- ===== src/Validator/RedirectUri.antt =====
-- internal/validator/validator.go: the transport rules for a redirect_uri.
use Prim.Native.Char.{code}
use iam_service.Prelude.{
  String, Bool, true, false, ◌&&◌, ◌||◌, not, Option, none, some, ◌≡◌, ◌≢◌, ◌⊎◌, ◌↔◌, inl, inr,
  ◌==◌, eq_iff, ne_of_eq-false, eq-false_of_ne, Bool-cases, leb, arith, refl, if◌then◌else◌,
}
use iam_service.Web.{Web}

-- strings.Contains(s, "#")
unfoldable pub contains_hash : String → Bool
contains_hash String.[] = false
contains_hash (String.◌∷◌ c s) = (leb (code c) 0x23 && leb 0x23 (code c)) || contains_hash s

abbrev pub is_loopback : String → Bool
is_loopback hostname = hostname == "localhost" || hostname == "127.0.0.1" || hostname == "::1"

module _ (n : Web) where
  abbrev pub transport_is_valid : n.Url → Bool
  transport_is_valid u =
      if is_loopback (n.hostname u)
      then n.scheme u == "http" || n.scheme u == "https"
      else n.scheme u == "https"

  abbrev pub target_is_valid : String → Option n.Url → Bool
  target_is_valid raw none = false
  target_is_valid raw (some u) =
      if not (n.is_abs u) || n.host u == "" || not (n.fragment u == "") || contains_hash raw
      then false
      else transport_is_valid u

  unfoldable pub validate_redirect_uri : String → Bool
  validate_redirect_uri raw = if raw == "" then true else target_is_valid raw (n.parse raw)

  -- An absolute URI with a host and no fragment, by https, or by http to the machine itself.
  pub record IsRedirectUri (raw : String) : Type 0 where
    pub u : n.Url
    pub parsed : n.parse raw ≡ some u
    pub absolute : n.is_abs u ≡ true
    pub host : n.host u ≢ ""
    pub no_fragment : n.fragment u ≡ ""
    pub no_hash : contains_hash raw ≡ false
    pub transport :
        (n.scheme u ≡ "https") ⊎ ((n.scheme u ≡ "http") × (is_loopback (n.hostname u) ≡ true))

  transport_sound :
      (u : n.Url)
      → transport_is_valid u ≡ true
      → (n.scheme u ≡ "https") ⊎ ((n.scheme u ≡ "http") × (is_loopback (n.hostname u) ≡ true))
  transport_sound u h = elim (Bool-cases (n.scheme u == "https")) [
    | inl s ↦ inl ((eq_iff _ _).0 s)
    | inr s ↦ elim (Bool-cases (is_loopback (n.hostname u))) [
      | inl l ↦ inr ((eq_iff _ _).0 (plain_http (n.scheme u == "http") _ s (rw l at h)), l)
      | inr l ↦ absurd (cc (s, rw l at h))
    ]
  ]
    where
      plain_http : (a b : Bool) → b ≡ false → (a || b) ≡ true → a ≡ true
      plain_http true b e h = refl
      plain_http false b e h = cc

  transport_complete :
      (u : n.Url)
      → (n.scheme u ≡ "https") ⊎ ((n.scheme u ≡ "http") × (is_loopback (n.hostname u) ≡ true))
      → transport_is_valid u ≡ true
  transport_complete u (inl s) =
      let secure = (eq_iff (n.scheme u) "https").1 s in ground (arith, secure)
  transport_complete u (inr (s, l)) = rw (l, (eq_iff _ "http").1 s) refl

  target_sound :
      (raw : String) (found : Option n.Url)
      → n.parse raw ≡ found
      → target_is_valid raw found ≡ true
      → IsRedirectUri raw
  target_sound raw none e h = absurd (cc)
  target_sound raw (some u) e h =
      elim (Bool-cases
        (not (n.is_abs u) || n.host u == "" || not (n.fragment u == "") || contains_hash raw)) [
          | inl bad ↦ absurd (cc (rw bad at h))
          | inr good ↦ record {
            u = u;
            parsed = e;
            absolute = ground arith;
            host = ne_of_eq-false _ _ (ground arith);
            no_fragment = (eq_iff _ _).0 (ground arith);
            no_hash = ground arith;
            transport = transport_sound u (rw good at h);
          }
        ]

  -- A redirect_uri that is not empty passes exactly if it is an absolute URI with a host and no
  -- fragment, by https, or by http to the machine itself.
  pub validate_redirect_uri_iff :
      (raw : String) → raw ≢ "" → (validate_redirect_uri raw ≡ true) ↔ IsRedirectUri raw
  unfolding validate_redirect_uri
  validate_redirect_uri_iff raw full = (
    λ h. target_sound raw (n.parse raw) refl (rw (eq-false_of_ne raw "" full) at h),
    λ is.
        let host = eq-false_of_ne _ _ is.host in
        let fragment = (eq_iff _ _).1 is.no_fragment in
        rw (eq-false_of_ne raw "" full, is.parsed, is.absolute, host, fragment, is.no_hash)
          (transport_complete is.u is.transport),
  )
