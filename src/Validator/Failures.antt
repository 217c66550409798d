-- ===== src/Validator/Failures.antt =====
-- When a field fails none of its rules.
use Prim.Native.String.{count}
use iam_service.Prelude.{
  ℕ, ◌≤◌, ◌<◌, sym, ap, String, List, [], ◌∷◌, Bool, true, none, ◌≡◌, ◌≢◌, ◌⊎◌, ◌↔◌, inl, inr, ◌==◌,
  eq_iff, ne_of_eq-false, eq-false_of_ne, Bool-cases, arith, contains,
}
use iam_service.Validator.Rules.{Rule, required, omitempty, min, max, oneof, custom, first_failure}

module _ (check : String → Bool) (v : String) where
  pub required_sound :
      (rest : List Rule)
      → first_failure check v (required ∷ rest) ≡ none
      → (v ≢ "") × (first_failure check v rest ≡ none)
  unfolding first_failure
  required_sound rest h = elim (Bool-cases (v == "")) [
    | inl e ↦ absurd (cc (rw e at h))
    | inr e ↦ (ne_of_eq-false _ _ e, rw e at h)
  ]

  pub length_sound :
      (lo hi : ℕ) (lo_text hi_text : String)
      → first_failure check v (min lo_text lo ∷ max hi_text hi ∷ []) ≡ none
      → (lo ≤ count v) × (count v ≤ hi)
  unfolding first_failure
  length_sound lo hi lo_text hi_text h = ground arith

  pub length_complete :
      (lo hi : ℕ) (lo_text hi_text : String)
      → lo ≤ count v
      → count v ≤ hi
      → first_failure check v (min lo_text lo ∷ max hi_text hi ∷ []) ≡ none
  unfolding first_failure
  length_complete lo hi lo_text hi_text h h' = ground arith

  pub max_iff :
      (hi : ℕ) (text : String) → (first_failure check v (max text hi ∷ []) ≡ none) ↔ (count v ≤ hi)
  unfolding first_failure
  max_iff hi text = (λ h. ground arith, λ h. ground arith)

  pub one_sound :
      (option : String) → first_failure check v (oneof (option ∷ []) ∷ []) ≡ none → v ≡ option
  unfolding first_failure contains
  one_sound option h = ground (arith, eq_iff option v)

  pub one_complete :
      (option : String) → v ≡ option → first_failure check v (oneof (option ∷ []) ∷ []) ≡ none
  unfolding first_failure contains
  one_complete option h = ground (arith, eq_iff option v)

  pub required_complete :
      (rest : List Rule)
      → v ≢ ""
      → first_failure check v rest ≡ none
      → first_failure check v (required ∷ rest) ≡ none
  unfolding first_failure
  required_complete rest full h = rw (eq-false_of_ne v "" full) h

  pub optional_iff :
      (a b : String)
      → (first_failure check v (omitempty ∷ oneof (a ∷ b ∷ []) ∷ []) ≡ none)
        ↔ ((v ≡ "") ⊎ (v ≡ a) ⊎ (v ≡ b))
  unfolding first_failure contains
  optional_iff a b = (
    λ h. elim (Bool-cases (v == "")) [
      | inl e ↦ inl ((eq_iff v "").0 e)
      | inr e ↦ elim (Bool-cases (a == v)) [
        | inl f ↦ inr (inl (sym ((eq_iff a v).0 f)))
        | inr f ↦ inr (inr (ground (arith, eq_iff b v)))
      ]
    ],
    λ h. elim h [
      | inl e ↦ ground (arith, eq_iff v "")
      | inr (inl e) ↦ ground (arith, eq_iff a v)
      | inr (inr e) ↦ ground (arith, eq_iff b v)
    ],
  )

  pub custom_iff :
      (tag : String) → (first_failure check v (custom tag ∷ []) ≡ none) ↔ (check v ≡ true)
  unfolding first_failure
  custom_iff tag = (λ h. ground arith, λ h. ground arith)

  pub not_empty : (lo : ℕ) → 0 < lo → lo ≤ count v → v ≢ ""
  not_empty lo h h' e = absurd (omega (arith, ap count e))
