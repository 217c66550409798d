-- ===== src/Effect/Always.antt =====
-- Calls whose values all satisfy a predicate, whatever the state.
use iam_service.Prelude.{
  Bool, true, false, Option, none, some, ◌≡◌, ap, inl, inr, maybe, if◌then◌else◌,
}
use iam_service.Errors.{Error}
use iam_service.Effect.Defs.{Result, ok, M, pure, respond}
use iam_service.Effect.Inversion.{respond-inv, ok_injective}

module _ {W A : Type 0} where
  pub record IsAlways (P : A → Type 0) (m : M W A) : Type 0 where
    pub at : (w : W) {a : A} {w' : W} → m w ≡ (ok a, w') → P a

module _ {W A : Type 0} {P : A → Type 0} where
  pub IsAlways-pure : (a : A) → P a → IsAlways {W = W} P (pure a)
  IsAlways-pure a h = record {
    at = λ w {a = b} e.
        let same : a ≡ b = ok_injective (ap (λ (x : Result A × W). x.0) e) in rw (← same) h;
  }

  pub IsAlways-if :
      (b : Bool) (m n : M W A) → IsAlways P m → IsAlways P n → IsAlways P (if b then m else n)
  IsAlways-if true m n hm hn = hm
  IsAlways-if false m n hm hn = hn

module _ {W A B : Type 0} {P : A → Type 0} where
  pub IsAlways-maybe :
      (m : M W A) (f : B → M W A) (o : Option B)
      → IsAlways P m
      → ((b : B) → IsAlways P (f b))
      → IsAlways P (maybe m f o)
  unfolding maybe
  IsAlways-maybe m f none hm hf = hm
  IsAlways-maybe m f (some b) hm hf = hf b

module _ {W A B : Type 0} {P : B → Type 0} where
  pub IsAlways-respond :
      (failed_with : Error → B) (finish : A → B) (m : M W A)
      → ((e : Error) → P (failed_with e))
      → ((a : A) → P (finish a))
      → IsAlways P (respond failed_with finish m)
  IsAlways-respond failed_with finish m bad good = record {
    at = λ w h. elim (respond-inv failed_with finish m w h) [
      | inl (a, ran, same) ↦ rw same (good a)
      | inr (e, ran, same) ↦ rw same (bad e)
    ];
  }

pub ruleset always = (IsAlways-pure, IsAlways-if, IsAlways-maybe, IsAlways-respond)
