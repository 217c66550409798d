-- ===== src/Validator/Reported.antt =====
-- internal/validator/validator.go: what `Struct` tells about a request.
use iam_service.Prelude.{
  String, List, [], ◌∷◌, ◌++◌, Bool, true, Option, none, some, ◌≡◌, refl, sym, ap, ◌∙◌, ◌==◌, ◌⊎◌,
  inl, inr, Among, here, there, Bool-cases, eq_iff, if◌then◌else◌, subst,
}
use iam_service.Validator.Rules.{Rule, Field, FieldError, Engine, IsEngine, first_failure}
use iam_service.Validator.Report.{Fields, has_key, message, collect, report, struct}

abbrev entry : FieldError → String × String
entry e = (e.name, message e)

-- No name has two entries.
abbrev pub IsOnce : Fields → Type 0
IsOnce [] = Unit
IsOnce ((name, text) ∷ rest) = ((other : String) → Among (name, other) rest → ⊥) × IsOnce rest

module _ (check : String → Bool) (fields : List Field) where
  -- The rule that a field of the request fails first.
  abbrev Fails : Field → Rule → Type 0
  Fails f rule = Among f fields × (first_failure check f.value f.rules ≡ some rule)

  -- A report with one entry for each name of a field that fails a rule, each the message of the
  -- first rule that a field of that name fails; or nil, where no field fails a rule.
  pub data Reported (r : Option Fields) : Type 0 where
    silent : r ≡ none → ((f : Field) (rule : Rule) → Fails f rule → ⊥) → Reported r
    told :
        (out : Fields) (f : Field) (rule : Rule)
        → r ≡ some out
        → Fails f rule
        → ((name text : String)
            → Among (name, text) out
            → (g : Field) × (failed : Rule) × Fails g failed
              × (g.name ≡ name)
              × (text ≡ message (record { name = name; rule = failed })))
        → ((g : Field) (failed : Rule)
            → Fails g failed
            → (text : String) × Among (g.name, text) out)
        → IsOnce out
        → Reported r

Among-left : {A : Type 0} (xs ys : List A) (x : A) → Among x xs → Among x (xs ++ ys)
Among-left [] ys x a = elim a [ ]
Among-left (y ∷ xs) ys x here = here
Among-left (y ∷ xs) ys x (there a) = there (Among-left xs ys x a)

Among-last : {A : Type 0} (xs : List A) (x : A) → Among x (xs ++ x ∷ [])
Among-last [] x = here
Among-last (y ∷ xs) x = there (Among-last xs x)

Among-split : {A : Type 0} (xs : List A) (x y : A) → Among x (xs ++ y ∷ []) → Among x xs ⊎ (x ≡ y)
Among-split [] x y here = inr refl
Among-split [] x y (there a) = elim a [ ]
Among-split (z ∷ xs) x y here = inl here
Among-split (z ∷ xs) x y (there a) = elim (Among-split xs x y a) [
  | inl b ↦ inl (there b)
  | inr e ↦ inr e
]

has_key_sound :
    (out : Fields) (key : String) → has_key out key ≡ true → (text : String) × Among (key, text) out
unfolding has_key
has_key_sound [] key h = absurd (cc)
has_key_sound ((k, v) ∷ rest) key h = elim (Bool-cases (k == key)) [
  | inl e ↦ (v, rw ((eq_iff k key).0 e) here)
  | inr e ↦ let (text, a) = has_key_sound rest key (rw e at h) in (text, there a)
]

has_key_complete :
    (out : Fields) (key text : String) → Among (key, text) out → has_key out key ≡ true
unfolding has_key
has_key_complete [] key text a = elim a [ ]
has_key_complete ((k, v) ∷ rest) key text here = rw ((eq_iff key key).1 refl) refl
has_key_complete ((k, v) ∷ rest) key text (there a) = elim (Bool-cases (k == key)) [
  | inl e ↦ rw e refl
  | inr e ↦ rw e (has_key_complete rest key text a)
]

none_left : {y : FieldError} → Among y [] → ⊥
none_left a = elim a [ ]

-- An entry that stands in the map stays.
collect_keeps :
    (out : Fields) (errors : List FieldError) (x : String × String)
    → Among x out
    → Among x (collect out errors)
unfolding collect
collect_keeps out [] x a = a
collect_keeps out (e ∷ rest) x a = elim (Bool-cases (has_key out e.name)) [
  | inl old ↦ rw old (collect_keeps out rest x a)
  | inr new ↦ rw new (collect_keeps (out ++ entry e ∷ []) rest x (Among-left out _ x a))
]

-- Every error has an entry under its field's name.
collect_complete :
    (out : Fields) (errors : List FieldError) (e : FieldError)
    → Among e errors
    → (text : String) × Among (e.name, text) (collect out errors)
unfolding collect
collect_complete out [] e a = elim a [ ]
collect_complete out (x ∷ rest) e here = elim (Bool-cases (has_key out e.name)) [
  | inl old ↦
      let (text, a) = has_key_sound out e.name old in
      (text, rw old (collect_keeps out rest (e.name, text) a))
  | inr new ↦ (
    message e,
    rw new (collect_keeps (out ++ entry e ∷ []) rest (entry e) (Among-last out (entry e))),
  )
]
collect_complete out (x ∷ rest) e (there a) =
    collect_complete (if has_key out x.name then out else out ++ entry x ∷ []) rest e a

-- Every entry was there before, or is the message of an error.
collect_sound :
    (out : Fields) (errors : List FieldError) (x : String × String)
    → Among x (collect out errors)
    → Among x out ⊎ ((e : FieldError) × Among e errors × (x ≡ entry e))
unfolding collect
collect_sound out [] x a = inl a
collect_sound out (e ∷ rest) x a = elim (Bool-cases (has_key out e.name)) [
  | inl old ↦ elim (collect_sound out rest x (rw old at a)) [
    | inl b ↦ inl b
    | inr (f, b, same) ↦ inr (f, there b, same)
  ]
  | inr new ↦ elim (collect_sound (out ++ entry e ∷ []) rest x (rw new at a)) [
    | inl b ↦ elim (Among-split out x (entry e) b) [
      | inl c ↦ inl c
      | inr same ↦ inr (e, here, same)
    ]
    | inr (f, b, same) ↦ inr (f, there b, same)
  ]
]

IsOnce-add :
    (out : Fields) (name text : String)
    → ((other : String) → Among (name, other) out → ⊥)
    → IsOnce out
    → IsOnce (out ++ (name, text) ∷ [])
IsOnce-add [] name text new h = (λ other a. elim a [ ], tt)
IsOnce-add ((k, v) ∷ rest) name text new (first, h) = (
  λ other a. elim (Among-split rest (k, other) (name, text) a) [
    | inl b ↦ first other b
    | inr same ↦
        let same_name : k ≡ name = ap (λ (x : String × String). x.0) same in
        new v (rw same_name here)
  ],
  IsOnce-add rest name text (λ other a. new other (there a)) h,
)

collect-IsOnce :
    (out : Fields) (errors : List FieldError) → IsOnce out → IsOnce (collect out errors)
unfolding collect
collect-IsOnce out [] h = h
collect-IsOnce out (e ∷ rest) h = elim (Bool-cases (has_key out e.name)) [
  | inl old ↦ rw old (collect-IsOnce out rest h)
  | inr new ↦
      let unknown : (other : String) → Among (e.name, other) out → ⊥ =
        λ other a. absurd (cc (has_key_complete out e.name other a, new)) in
      rw new
        (collect-IsOnce (out ++ entry e ∷ []) rest (IsOnce-add out e.name (message e) unknown h))
]

module _ (engine : Engine) (law : IsEngine engine) (check : String → Bool)
    (fields : List Field) where
  report-Reported :
      (errors : List FieldError)
      → engine check fields ≡ errors
      → Reported check fields (report errors)
  unfolding report
  report-Reported [] e = silent refl λ f rule fails.
      none_left (subst (Among _) e (law.reports check fields f rule fails.0 fails.1))
  report-Reported (x ∷ rest) e =
      let (f, among, named, fails) = law.reported check fields x (rw e here) in
      told (collect [] (x ∷ rest)) f x.rule refl (among, fails)
        (λ name text a. elim (collect_sound [] (x ∷ rest) (name, text) a) [
          | inl b ↦ elim b [ ]
          | inr (y, b, same) ↦
              let (g, found, called, failed) = law.reported check fields y (rw e b) in
              let same_name : name ≡ y.name = ap (λ (p : String × String). p.0) same in
              let same_text : text ≡ message y = ap (λ (p : String × String). p.1) same in
              (
                g,
                y.rule,
                (found, failed),
                called ∙ sym same_name,
                subst (λ k. text ≡ message (record { name = k; rule = y.rule })) (sym same_name)
                    same_text,
              )
        ])
        (λ g failed fail.
          collect_complete [] (x ∷ rest) (record { name = g.name; rule = failed })
            (subst (Among _) e (law.reports check fields g failed fail.0 fail.1)))
        (collect-IsOnce [] (x ∷ rest) tt)

  -- Struct reports nil exactly where no field of the request fails a rule. Otherwise it reports a
  -- map with one entry for each name of a field that fails a rule, whose text is the message of the
  -- first rule that a field of that name fails, and with no other entry, if the engine keeps to its
  -- documentation.
  pub struct-Reported : Reported check fields (struct engine check fields)
  unfolding struct
  struct-Reported = report-Reported (engine check fields) refl
