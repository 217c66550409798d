-- ===== src/Examples/Columns.antt =====
-- A column of one list of texts.
use iam_service.Prelude.{String, List, [], ◌∷◌, Bool, true, false, ◌≡◌, refl, sym, ap}
use iam_service.Errors.{fault}
use iam_service.Effect.{Reply, done, failed, ok}
use iam_service.Platform.{Bytes}
use iam_service.Columns.{Json, IsJson, bytes, text, value, scan, scan-value}
use iam_service.Examples.Memory.{same_texts}
use iam_service.Examples.Laws.{same_texts_sound}

abbrev scopes : List String
scopes = "read" ∷ "write" ∷ []

abbrev label : Bool → Reply Bytes
label true = done (1 ∷ [])
label false = failed (fault "json")

-- An encoder that knows one list, and writes it as one byte.
abbrev json : Json
json = record {
  marshal = λ s. label (same_texts s scopes);
  unmarshal = λ b. done scopes;
  to_string = λ b. "scopes";
  to_bytes = λ t. 1 ∷ [];
}

label-inv : (b : Bool) (v : Bytes) → label b ≡ done v → (b ≡ true) × (1 ∷ [] ≡ v)
label-inv true v h = (refl, cc)
label-inv false v h = absurd (cc)

json-IsJson : IsJson json
json-IsJson = record {
  unmarshal-marshal = λ s b h.
      let (same, value) = label-inv (same_texts s scopes) b h in
      ap (λ x. done x) (sym (same_texts_sound s scopes same));
  to_bytes-to_string = λ s b h. (label-inv (same_texts s scopes) b h).1;
}

scan-value_example :
    (scan json (text "scopes") ≡ ok scopes) × (scan json (bytes (1 ∷ [])) ≡ ok scopes)
unfolding value same_texts
scan-value_example = scan-value json json-IsJson scopes "scopes" refl
