-- ===== src/Spent/Lifetime.antt =====
-- An entry with a bounded time to live, as time passes.
use iam_service.Prelude.{
  ℕ, ◌+◌, ◌-◌, ◌≤◌, ◌<◌, String, Option, none, some, ◌≡◌, refl, leb, Bool-cases, inl, inr, arith,
  leb-false_of_lt, false,
}
use iam_service.Platform.{Entry, aged, lives_for}
use iam_service.Spent.Calls.{IsFading}

-- After `spent` of its `total` nanoseconds: there is no entry, or one with no more than the rest.
abbrev pub LivesOut : (total spent : ℕ) → Option Entry → Type 0
LivesOut total spent none = Unit
LivesOut total spent (some e) =
    (left : ℕ) × (e.ttl ≡ some left) × (0 < left) × (left + spent ≤ total)

lt_of_leb : (a b : ℕ) → leb a b ≡ false → b < a
lt_of_leb a b h = ground arith

module _ (total : ℕ) where
  pub LivesOut-aged :
      (spent n : ℕ) (held : Option Entry)
      → LivesOut total spent held
      → LivesOut total (spent + n) (aged n held)
  LivesOut-aged spent n none h = tt
  LivesOut-aged spent n (some e) (left, lives, some_left, within) = elim (Bool-cases (leb left n)) [
    | inl over ↦ rw (lives, over) tt
    | inr more ↦
        let longer : n < left = lt_of_leb left n more in
        rw (lives, more) (left - n, refl, omega arith, omega arith)
  ]

  sooner :
      (spent n : ℕ) (held : Option Entry)
      → LivesOut total (spent + n) held
      → LivesOut total spent held
  sooner spent n none h = tt
  sooner spent n (some e) (left, lives, some_left, within) = (left, lives, some_left, omega arith)

  pub LivesOut-IsFading : (spent : ℕ) → IsFading (LivesOut total spent)
  LivesOut-IsFading spent = record {
    gone = tt;
    ages = λ n held h. sooner spent n (aged n held) (LivesOut-aged spent n held h);
  }

  pub LivesOut-new :
      (value : String)
      → 0 < total
      → LivesOut total 0 (some (record { value = value; ttl = lives_for total }))
  LivesOut-new value h = (total, rw (leb-false_of_lt total 0 h) refl, h, omega arith)

  -- At the end of its time an entry is gone.
  pub LivesOut-none :
      (spent : ℕ) (held : Option Entry) → total ≤ spent → LivesOut total spent held → held ≡ none
  LivesOut-none spent none late h = refl
  LivesOut-none spent (some e) late (left, lives, some_left, within) = absurd (omega arith)
