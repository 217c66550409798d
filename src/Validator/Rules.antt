-- ===== src/Validator/Rules.antt =====
-- The validate tags as data, and go-playground/validator as a parameter with what it documents of
-- them.
use Prim.Native.String.{count}
use iam_service.Prelude.{
  ℕ, String, List, [], ◌∷◌, Bool, true, not, ◌||◌, Option, none, some, ◌≡◌, ◌==◌, leb, contains,
  Among, if◌then◌else◌,
}

-- `param` is the number as the tag writes it. `custom` is a tag registered with a function; `required_if` carries the value of the other field.
pub data Rule : Type 0 where
  required omitempty : Rule
  min max : (param : String) → ℕ → Rule
  oneof : List String → Rule
  required_if : (other expected : String) → Rule
  custom : (tag : String) → Rule

-- A field of a struct: the name of its `form` tag, its value and its rules.
pub record Field : Type 0 where
  pub name : String
  pub value : String
  pub rules : List Rule

-- The tag that failed.
pub record FieldError : Type 0 where
  pub name : String
  pub rule : Rule

-- Whether a value passes a rule, as the documentation of the tags says; lengths are in code points.
abbrev pub passes : (String → Bool) → String → Rule → Bool
passes check value required = not (value == "")
passes check value omitempty = true
passes check value (min param n) = leb n (count value)
passes check value (max param n) = leb (count value) n
passes check value (oneof options) = contains options value
passes check value (required_if other expected) = not (other == expected) || not (value == "")
passes check value (custom tag) = check value

-- The first rule that a value fails; behind `omitempty` an empty value fails none.
unfoldable pub first_failure : (String → Bool) → String → List Rule → Option Rule
first_failure check value [] = none
first_failure check value (omitempty ∷ rest) =
    if value == "" then none else first_failure check value rest
first_failure check value (rule ∷ rest) =
    if passes check value rule then first_failure check value rest else some rule

-- The engine, with the function that is registered for the tag redirect_uri.
abbrev pub Engine : Type 0
Engine = (String → Bool) → List Field → List FieldError

-- Struct reports the first failure of each field, and nothing else.
pub record IsEngine (engine : Engine) : Type 0 where
  pub reports :
      (check : String → Bool) (fields : List Field) (f : Field) (rule : Rule)
      → Among f fields
      → first_failure check f.value f.rules ≡ some rule
      → Among (record { name = f.name; rule = rule }) (engine check fields)
  pub reported :
      (check : String → Bool) (fields : List Field) (e : FieldError)
      → Among e (engine check fields)
      → (f : Field) × Among f fields
        × (f.name ≡ e.name)
        × (first_failure check f.value f.rules ≡ some e.rule)
