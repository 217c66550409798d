-- ===== src/Effect/Total.antt =====
-- Calls that end with a value: from one state, and from every state.
use iam_service.Prelude.{◌≡◌, ◌∙◌, refl, some}
use iam_service.Errors.{Error}
use iam_service.Effect.Defs.{ok, M, pure, relabel, ◌>>=◌, or_fail}
use iam_service.Effect.Inversion.{bind-value, relabel-ok}

abbrev pub Succeeds : {W A : Type 0} → M W A → W → Type 0
Succeeds {A} m w = (a : A) × ((m w).0 ≡ ok a)

pub record IsTotal {W A : Type 0} (m : M W A) : Type 0 where
  pub at : (w : W) → Succeeds m w

module _ {W A : Type 0} where
  pub IsTotal-pure : (a : A) → IsTotal (pure {W = W} a)
  IsTotal-pure a = record { at = λ w. (a, refl) }

  pub IsTotal-or_fail : (e : Error) (a : A) → IsTotal (or_fail {W = W} e (some a))
  IsTotal-or_fail e a = record { at = λ w. (a, refl) }

  pub Succeeds-relabel :
      (handle : Error → Error) (m : M W A) (w : W) → Succeeds m w → Succeeds (relabel handle m) w
  Succeeds-relabel handle m w (a, e) = (a, relabel-ok handle m w e)

  pub IsTotal-relabel :
      (handle : Error → Error) (m : M W A) → IsTotal m → IsTotal (relabel handle m)
  IsTotal-relabel handle m t = record { at = λ w. Succeeds-relabel handle m w (t.at w) }

module _ {W A B : Type 0} (m : M W A) (f : A → M W B) where
  pub Succeeds-bind :
      (w : W) (a : A) → (m w).0 ≡ ok a → Succeeds (f a) (m w).1 → Succeeds (m >>= f) w
  Succeeds-bind w a e (b, e') = (b, bind-value m f w e ∙ e')

  pub Succeeds-IsTotal : (w : W) (a : A) → (m w).0 ≡ ok a → IsTotal (f a) → Succeeds (m >>= f) w
  Succeeds-IsTotal w a e t = Succeeds-bind w a e (t.at (m w).1)

  pub IsTotal-bind : IsTotal m → ((a : A) → IsTotal (f a)) → IsTotal (m >>= f)
  IsTotal-bind t s = record {
    at = λ w. Succeeds-bind w (t.at w).0 (t.at w).1 ((s (t.at w).0).at (m w).1);
  }

pub ruleset total_rules = (IsTotal-pure, IsTotal-or_fail, IsTotal-relabel, IsTotal-bind)
