-- ===== src/Validator/Report.antt =====
-- internal/validator/validator.go: `Struct` and `message`.
use Prim.Native.String.{◌++◌ as concat}
use iam_service.Prelude.{
  String, List, [], ◌∷◌, ◌++◌, Bool, false, ◌||◌, Option, none, some, ◌≡◌, ◌≢◌, ◌↔◌, refl, ◌==◌,
  Among, here, if◌then◌else◌,
}
use iam_service.Text.{join}
use iam_service.Validator.Rules.{
  Rule, required, omitempty, min, max, oneof, required_if, custom, Field, FieldError, Engine,
  IsEngine, first_failure,
}

-- A Go map from texts to texts; a key that is added stands at the end.
abbrev pub Fields : Type 0
Fields = List (String × String)

unfoldable pub has_key : Fields → String → Bool
has_key [] key = false
has_key ((k, v) ∷ rest) key = k == key || has_key rest key

-- By `fe.Tag()` and `fe.Param()`; the parameter of oneof is its list, separated by spaces.
unfoldable pub message : FieldError → String
message e = elim e.rule [
  | required ↦ "is required"
  | omitempty ↦ "is invalid"
  | min param n ↦ concat "must be at least " (concat param " characters")
  | max param n ↦ concat "must be at most " (concat param " characters")
  | oneof options ↦ concat "must be one of: " (join options " ")
  | required_if other expected ↦ "is invalid"
  | custom tag ↦
      if tag == "redirect_uri"
      then "must be an absolute https URI with no fragment (http allowed only for loopback)"
      else "is invalid"
]

-- The loop over the errors: the first message of a field stays.
unfoldable pub collect : Fields → List FieldError → Fields
unfolding has_key message
collect out [] = out
collect out (e ∷ rest) =
    collect (if has_key out e.name then out else out ++ (e.name, message e) ∷ []) rest

-- `none` is the nil map.
unfoldable pub report : List FieldError → Option Fields
unfolding collect
report [] = none
report (e ∷ rest) = some (collect [] (e ∷ rest))

-- `Struct`, over a struct's fields.
unfoldable pub struct : Engine → (String → Bool) → List Field → Option Fields
unfolding report
struct engine check fields = report (engine check fields)

-- Nothing is reported exactly where no field fails a rule.
pub struct-none_iff :
    (engine : Engine) (law : IsEngine engine) (check : String → Bool) (fields : List Field)
    → (struct engine check fields ≡ none)
      ↔ ((f : Field) → Among f fields → first_failure check f.value f.rules ≡ none)
unfolding struct
struct-none_iff engine law check fields = (
  λ h f a. quiet h f a (first_failure check f.value f.rules) refl,
  λ h.
      silent (engine check fields)
        (λ e a. let (f, among, _, fails) = law.reported check fields e a in cc (h f among, fails)),
)
  where
    silent :
        (errors : List FieldError) → ((e : FieldError) → Among e errors → ⊥) → report errors ≡ none
    silent [] h = refl
    silent (e ∷ rest) h = absurd (h e here)

    loud : (errors : List FieldError) (e : FieldError) → Among e errors → report errors ≢ none
    loud [] e a h = elim a [ ]
    loud (x ∷ rest) e a h = cc

    quiet :
        report (engine check fields) ≡ none
        → (f : Field) → Among f fields
        → (found : Option Rule) → first_failure check f.value f.rules ≡ found
        → first_failure check f.value f.rules ≡ none
    quiet h f a none e = e
    quiet h f a (some rule) e = absurd (loud _ _ (law.reports check fields f rule a e) h)
