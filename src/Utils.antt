-- ===== src/Utils.antt =====
-- internal/utils/slices.go: `ContainsAll`, and what it decides. A Go map from texts to struct{} is
-- the list of its keys in the order of their insertion.
use iam_service.Prelude.{
  String, List, [], ◌∷◌, Bool, true, false, ◌≡◌, refl, ◌↔◌, inl, inr, arith, if◌then◌else◌,
  Bool-cases, Among, here, there, All, All-map, contains, contains_sound, contains_complete,
}

-- `mainMap[val] = struct{}{}` for each value.
fill : List String → List String → List String
fill keys [] = keys
fill keys (val ∷ rest) = fill (if contains keys val then keys else val ∷ keys) rest

-- The second loop, which returns at the first value that the map does not hold.
all_exist : List String → List String → Bool
all_exist keys [] = true
all_exist keys (val ∷ rest) = if contains keys val then all_exist keys rest else false

unfoldable pub contains_all : List String → List String → Bool
unfolding fill all_exist
contains_all main sub = all_exist (fill [] main) sub

fill_keeps : (keys main : List String) (s : String) → Among s keys → Among s (fill keys main)
unfolding fill
fill_keeps keys [] s a = a
fill_keeps keys (x ∷ xs) s a = elim (Bool-cases (contains keys x)) [
  | inl old ↦ rw old (fill_keeps keys xs s a)
  | inr new ↦ rw new (fill_keeps (x ∷ keys) xs s (there a))
]

fill_adds : (keys main : List String) (s : String) → Among s main → Among s (fill keys main)
unfolding fill
fill_adds keys [] s a = elim a [ ]
fill_adds keys (x ∷ xs) s here = elim (Bool-cases (contains keys x)) [
  | inl old ↦ rw old (fill_keeps keys xs s (contains_sound keys s old))
  | inr new ↦ rw new (fill_keeps (x ∷ keys) xs s here)
]
fill_adds keys (x ∷ xs) s (there a) = fill_adds (if contains keys x then keys else x ∷ keys) xs s a

-- The map holds no other key.
fill_only :
    (keys main : List String) (P : String → Type 0)
    → ((s : String) → Among s keys → P s)
    → ((s : String) → Among s main → P s)
    → (s : String) → Among s (fill keys main)
    → P s
unfolding fill
fill_only keys [] P k m s a = k s a
fill_only keys (x ∷ xs) P k m s a = elim (Bool-cases (contains keys x)) [
  | inl old ↦ fill_only keys xs P k (λ t b. m t (there b)) s (rw old at a)
  | inr new ↦ fill_only (x ∷ keys) xs P added (λ t b. m t (there b)) s (rw new at a)
]
  where
    added : (t : String) → Among t (x ∷ keys) → P t
    added t here = m t here
    added t (there b) = k t b

all_exist_sound : (keys sub : List String) → all_exist keys sub ≡ true → All (λ s. Among s keys) sub
unfolding all_exist
all_exist_sound keys [] h = tt
all_exist_sound keys (x ∷ xs) h = elim (Bool-cases (contains keys x)) [
  | inl e ↦ (contains_sound keys x e, all_exist_sound keys xs (rw e at h))
  | inr e ↦ absurd (ground arith)
]

all_exist_complete :
    (keys sub : List String) → All (λ s. Among s keys) sub → all_exist keys sub ≡ true
unfolding all_exist
all_exist_complete keys [] h = refl
all_exist_complete keys (x ∷ xs) (a, rest) =
    rw (contains_complete keys x a) (all_exist_complete keys xs rest)

-- `ContainsAll(main, sub)` is true exactly when every element of `sub` is an element of `main`.
pub contains_all_iff :
    (main sub : List String) → (contains_all main sub ≡ true) ↔ All (λ s. Among s main) sub
unfolding contains_all
contains_all_iff main sub = (
  λ h.
      All-map (λ s a. fill_only [] main (λ t. Among t main) (λ t b. elim b [ ]) (λ t b. b) s a) sub
        (all_exist_sound (fill [] main) sub h),
  λ h. all_exist_complete (fill [] main) sub (All-map (λ s a. fill_adds [] main s a) sub h),
)
