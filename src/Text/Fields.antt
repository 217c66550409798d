-- ===== src/Text/Fields.antt =====
-- Fields and Join are inverse on lists of words.

use Prim.Native.String.{◌++◌ as concat}
use text.Mathlib.TextLemmas.{nil-append, cons-append, append-nil}
use iam_service.Prelude.{
  String, List, [], ◌∷◌, false, ◌≡◌, ◌≢◌, refl, ap, ◌∙◌, subst, inl, inr, ◌==◌, eq_iff,
  eq-false_of_ne, Bool-cases, All,
}
use iam_service.Text.{is_space, emit, split_word, fields, join}

abbrev pub HasNoSpace : String → Type 0
HasNoSpace String.[] = Unit
HasNoSpace (String.◌∷◌ c s) = (is_space c ≡ false) × HasNoSpace s

-- A non-empty text with no white space.
abbrev pub IsWord : String → Type 0
IsWord s = (s ≢ "") × HasNoSpace s

emit-All :
    (word : String) (rest : List String)
    → HasNoSpace word
    → All IsWord rest
    → All IsWord (emit word rest)
emit-All word rest h k = elim (Bool-cases (word == "")) [
  | inl e ↦ rw e k
  | inr e ↦ rw e ((λ p. cc (e, (eq_iff word "").1 p), h), k)
]

split_word-All : (s : String) → HasNoSpace (split_word s).0 × All IsWord (split_word s).1
unfolding split_word
split_word-All String.[] = (tt, tt)
split_word-All (String.◌∷◌ c s) =
    let (word, rest) = split_word-All s in
    elim (Bool-cases (is_space c)) [
      | inl e ↦ rw e (tt, emit-All (split_word s).0 (split_word s).1 word rest)
      | inr e ↦ rw e ((e, word), rest)
    ]

-- Every field is a word.
pub fields-All : (s : String) → All IsWord (fields s)
unfolding fields
fields-All s =
    let (word, rest) = split_word-All s in emit-All (split_word s).0 (split_word s).1 word rest

split_word_space : (s : String) → split_word (concat " " s) ≡ ("", fields s)
unfolding split_word fields
split_word_space s = rw (cons-append, nil-append) refl

split_word_word :
    (w s : String) (rest : List String)
    → HasNoSpace w
    → split_word s ≡ ("", rest)
    → split_word (concat w s) ≡ (w, rest)
unfolding split_word
split_word_word String.[] s rest h e = rw nil-append e
split_word_word (String.◌∷◌ c w) s rest (p, h) e =
    rw (cons-append, split_word) (rw (split_word_word w s rest h e, p) refl)

fields_of_split_word :
    (s w : String) (rest : List String) → split_word s ≡ (w, rest) → w ≢ "" → fields s ≡ w ∷ rest
unfolding fields
fields_of_split_word s w rest e h =
    ap (λ (r : String × List String). emit r.0 r.1) e ∙ rw (eq-false_of_ne w "" h)

split_word-join :
    (x : String) (xs : List String)
    → HasNoSpace x
    → All IsWord xs
    → split_word (join (x ∷ xs) " ") ≡ (x, xs)
unfolding join
split_word-join x [] h k =
    subst (λ t. split_word t ≡ (x, [])) (append-nil x)
      (split_word_word x "" [] h (unfold split_word in refl))
split_word-join x (y ∷ ys) h (k, ks) =
    let text = join (y ∷ ys) " " in
    let tail = fields_of_split_word text y ys (split_word-join y ys k.1 ks) k.0 in
    split_word_word x (concat " " text) (y ∷ ys) h
      (split_word_space text ∙ ap (λ (r : List String). ("", r)) tail)

-- Words joined by single spaces are split again into themselves.
pub fields-join : (xs : List String) → All IsWord xs → fields (join xs " ") ≡ xs
fields-join [] h = unfold fields join in refl
fields-join (x ∷ xs) (h, hs) =
    fields_of_split_word (join (x ∷ xs) " ") x xs (split_word-join x xs h.1 hs) h.0

-- Joining the fields of a text and splitting again gives the same fields.
pub fields-join-fields : (s : String) → fields (join (fields s) " ") ≡ fields s
fields-join-fields s = fields-join (fields s) (fields-All s)
