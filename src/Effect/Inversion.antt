-- ===== src/Effect/Inversion.antt =====
-- What a successful composite call says of its parts, handed on to the rest of a proof: each rule
-- takes off the first call of a sequence, with the value and the state that it left.
use iam_service.Prelude.{Bool, true, false, ◌≡◌, refl, ap, ◌⊎◌, inl, inr, Option, none, some}
use mathlib.Core.Path.{subst₂}
use iam_service.Errors.{Error}
use iam_service.Effect.Defs.{
  settled, respond, Result, Reply, done, failed, from_reply, ok, err, panic, M, handled, relabel,
  on_error, continue, ◌>>=◌, ◌>>◌, require, or_fail, dereference,
}

module _ {W A B : Type 0} {C : Type 0} {b : B} {w' : W} where
  continue-inv :
      (r : Result A) (f : A → M W B) (u : W)
      → continue r f u ≡ (ok b, w')
      → ((a : A) → r ≡ ok a → f a u ≡ (ok b, w') → C)
      → C
  continue-inv (ok a) f u h k = k a refl h
  continue-inv (err e) f u h k = absurd (cc)
  continue-inv panic f u h k = absurd (cc)

  -- A successful sequence: the first part succeeded, and the rest from the state that it left.
  pub bind-inv :
      (m : M W A) (f : A → M W B) (w : W)
      → (m >>= f) w ≡ (ok b, w')
      → ((a : A) (u : W) → m w ≡ (ok a, u) → f a u ≡ (ok b, w') → C)
      → C
  unfolding ◌>>=◌
  bind-inv m f w h k =
      continue-inv (m w).0 f (m w).1 h (λ a e g. k a (m w).1 (λ i. (e i, (m w).1)) g)

module _ {W A : Type 0} where
  handled-eq-ok :
      (handle : Error → Error) (r : Result A) (w : W) {a : A} {w' : W}
      → handled (λ e u. (err (handle e), u)) r w ≡ (ok a, w')
      → ◌≡◌ {A = Result A × W} (r, w) (ok a, w')
  handled-eq-ok handle (ok a) w h = h
  handled-eq-ok handle (err e) w h = absurd (cc)
  handled-eq-ok handle panic w h = absurd (cc)

  handled-value :
      (handle : Error → Error) (r : Result A) (w : W) {a : A}
      → (handled (λ e u. (err (handle e), u)) r w).0 ≡ ok a
      → r ≡ ok a
  handled-value handle (ok a) w h = h
  handled-value handle (err e) w h = absurd (cc)
  handled-value handle panic w h = absurd (cc)

  pub relabel-value :
      (handle : Error → Error) (m : M W A) (w : W) {a : A}
      → (relabel handle m w).0 ≡ ok a
      → (m w).0 ≡ ok a
  unfolding on_error
  relabel-value handle m w h = handled-value handle (m w).0 (m w).1 h

  -- Where every error stays an error, a success is a success of the call itself.
  pub relabel-eq-ok :
      (handle : Error → Error) (m : M W A) (w : W) {a : A} {w' : W}
      → relabel handle m w ≡ (ok a, w')
      → m w ≡ (ok a, w')
  unfolding on_error
  relabel-eq-ok handle m w h = handled-eq-ok handle (m w).0 (m w).1 h

module _ {W A B : Type 0} {C : Type 0} {b : B} {w' : W} where
  pub relabel-inv :
      (handle : Error → Error) (m : M W A) (f : A → M W B) (w : W)
      → (relabel handle m >>= f) w ≡ (ok b, w')
      → ((a : A) (u : W) → m w ≡ (ok a, u) → f a u ≡ (ok b, w') → C)
      → C
  relabel-inv handle m f w h k =
      bind-inv (relabel handle m) f w h (λ a u e g. k a u (relabel-eq-ok handle m w e) g)

  pub or_fail-inv :
      (e : Error) (o : Option A) (f : A → M W B) (w : W)
      → (or_fail e o >>= f) w ≡ (ok b, w')
      → ((a : A) → o ≡ some a → f a w ≡ (ok b, w') → C)
      → C
  unfolding ◌>>=◌
  or_fail-inv e none f w h k = absurd (cc)
  or_fail-inv e (some a) f w h k = k a refl h

  pub dereference-inv :
      (o : Option A) (f : A → M W B) (w : W)
      → (dereference o >>= f) w ≡ (ok b, w')
      → ((a : A) → o ≡ some a → f a w ≡ (ok b, w') → C)
      → C
  unfolding ◌>>=◌
  dereference-inv none f w h k = absurd (cc)
  dereference-inv (some a) f w h k = k a refl h

pub from_reply-eq-ok : {A : Type 0} (r : Reply A) {a : A} → from_reply r ≡ ok a → r ≡ done a
from_reply-eq-ok (done a) h = cc
from_reply-eq-ok (failed f) h = absurd (cc)

pub ok_injective : {A : Type 0} {a b : A} → ok a ≡ ok b → a ≡ b
ok_injective h = cc

pub err_injective : {A : Type 0} {a b : Error} → ◌≡◌ {A = Result A} (err a) (err b) → a ≡ b
err_injective h = cc

pub done_injective : {A : Type 0} {a b : A} → done a ≡ done b → a ≡ b
done_injective h = cc

-- What holds of a returned value and of the state holds of the result.
pub pure-inv :
    {W A : Type 0} (P : A → W → Type 0) {a b : A} {w w' : W}
    → ◌≡◌ {A = Result A × W} (ok a, w) (ok b, w')
    → P a w
    → P b w'
pure-inv P {a} {b} {w} {w'} h p =
    let value : a ≡ b = cc in let state : w ≡ w' = cc in subst₂ P value state p

-- A guard that lets the call go on was true, and changed nothing.
pub require-inv :
    {W B C : Type 0} {b : B} {w' : W} (test : Bool) (e : Error) (m : M W B) (w : W)
    → (require test e >> m) w ≡ (ok b, w')
    → (test ≡ true → m w ≡ (ok b, w') → C)
    → C
unfolding ◌>>=◌
require-inv true e m w h k = k refl h
require-inv false e m w h k = absurd (cc)

-- The other way round: what a call comes to where its first part is known.
module _ {W A B : Type 0} (m : M W A) (f : A → M W B) (w : W) where
  pub bind-value : {a : A} → (m w).0 ≡ ok a → ((m >>= f) w).0 ≡ (f a (m w).1).0
  unfolding ◌>>=◌
  bind-value h = rw h refl

  pub bind-err : {e : Error} → (m w).0 ≡ err e → ((m >>= f) w).0 ≡ err e
  unfolding ◌>>=◌
  bind-err h = rw h refl

module _ {W A : Type 0} (handle : Error → M W A) (m : M W A) (w : W) where
  pub on_error-ok : {a : A} → (m w).0 ≡ ok a → (on_error handle m w).0 ≡ ok a
  unfolding on_error
  on_error-ok h = rw h refl

  pub on_error-err : {e : Error} → (m w).0 ≡ err e → on_error handle m w ≡ handle e (m w).1
  unfolding on_error
  on_error-err h = rw h refl

module _ {W A : Type 0} (handle : Error → Error) (m : M W A) (w : W) where
  pub relabel-ok : {a : A} → (m w).0 ≡ ok a → (relabel handle m w).0 ≡ ok a
  relabel-ok h = on_error-ok _ m w h

  pub relabel-err : {e : Error} → (m w).0 ≡ err e → (relabel handle m w).0 ≡ err (handle e)
  relabel-err h = ap (λ (x : Result A × W). x.0) (on_error-err _ m w h)

-- The result of a call, beside the state that the call left.
pub with_state :
    {W A : Type 0} (m : M W A) (w : W) {r : Result A} → (m w).0 ≡ r → m w ≡ (r, (m w).1)
with_state m w h i = (h i, (m w).1)

-- How a call ended whose errors are turned into values.
module _ {A B : Type 0} (failed_with : Error → B) (finish : A → B) where
  settled-inv :
      (r : Result A) {b : B}
      → settled failed_with finish r ≡ ok b
      → ((a : A) × (r ≡ ok a) × (b ≡ finish a)) ⊎ ((e : Error) × (r ≡ err e) × (b ≡ failed_with e))
  settled-inv (ok a) h = inl (a, refl, cc)
  settled-inv (err e) h = inr (e, refl, cc)
  settled-inv panic h = absurd (cc)

module _ {W A B : Type 0} (failed_with : Error → B) (finish : A → B) where
  pub respond-inv :
      (m : M W A) (w : W) {b : B} {w' : W}
      → respond failed_with finish m w ≡ (ok b, w')
      → ((a : A) × (m w ≡ (ok a, w')) × (b ≡ finish a))
        ⊎ ((e : Error) × (m w ≡ (err e, w')) × (b ≡ failed_with e))
  unfolding respond
  respond-inv m w h =
      let state = ap (λ (x : Result B × W). x.1) h in
      elim (settled-inv failed_with finish (m w).0 (ap (λ (x : Result B × W). x.0) h)) [
        | inl (a, e, f) ↦ inl (a, (λ i. (e i, state i)), f)
        | inr (x, e, f) ↦ inr (x, (λ i. (e i, state i)), f)
      ]

  pub respond-ok :
      (m : M W A) (w : W) {a : A} {w' : W}
      → m w ≡ (ok a, w')
      → respond failed_with finish m w ≡ (ok (finish a), w')
  unfolding respond
  respond-ok m w h = rw h refl
