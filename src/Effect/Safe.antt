-- ===== src/Effect/Safe.antt =====
-- Calls that never end in a panic, with one rule for each way to build a call.
use iam_service.Prelude.{
  ◌≡◌, ◌≢◌, ◌∙◌, ap, refl, Bool, true, false, Option, none, some, if◌then◌else◌,
}
use iam_service.Errors.{Error}
use iam_service.Effect.Defs.{
  Result, ok, err, panic, Reply, done, failed, from_reply, M, pure, fail, lift, handled, relabel,
  on_error, continue, ◌>>=◌, require, or_fail, dereference,
}

pub record IsSafe {W A : Type 0} (m : M W A) : Type 0 where
  pub at : (w : W) → (m w).0 ≢ panic

-- Safe, and what it returns without an error is not nil.
pub record IsPresent {W A : Type 0} (m : M W (Option A)) : Type 0 where
  pub safe : (w : W) → (m w).0 ≢ panic
  pub present : (w : W) → (m w).0 ≢ ok none

pub from_reply-ne-panic : {A : Type 0} (r : Reply A) → from_reply r ≢ panic
from_reply-ne-panic (done a) h = cc
from_reply-ne-panic (failed f) h = cc

module _ {W A : Type 0} where
  pub IsSafe-pure : (a : A) → IsSafe (pure {W = W} a)
  IsSafe-pure a = record { at = λ w h. cc }

  pub IsSafe-fail : (e : Error) → IsSafe (fail {W = W} {A = A} e)
  IsSafe-fail e = record { at = λ w h. cc }

  pub IsSafe-lift_reply : (r : Reply A) → IsSafe (lift {W = W} (from_reply r))
  IsSafe-lift_reply r = record { at = λ w. from_reply-ne-panic r }

  pub IsSafe-or_fail : (e : Error) (o : Option A) → IsSafe (or_fail {W = W} e o)
  IsSafe-or_fail e none = record { at = λ w h. cc }
  IsSafe-or_fail e (some a) = record { at = λ w h. cc }

  pub IsSafe-if : (b : Bool) (m n : M W A) → IsSafe m → IsSafe n → IsSafe (if b then m else n)
  IsSafe-if true m n sm sn = sm
  IsSafe-if false m n sm sn = sn

  handled-safe :
      (handle : Error → M W A) (r : Result A) (w : W)
      → ((e : Error) → IsSafe (handle e))
      → r ≢ panic
      → (handled handle r w).0 ≢ panic
  handled-safe handle (ok a) w k h = λ e. cc
  handled-safe handle (err e) w k h = (k e).at w
  handled-safe handle panic w k h = λ _. h refl

  pub IsSafe-on_error :
      (handle : Error → M W A) (m : M W A)
      → IsSafe m
      → ((e : Error) → IsSafe (handle e))
      → IsSafe (on_error handle m)
  unfolding on_error
  IsSafe-on_error handle m sm k = record {
    at = λ w. handled-safe handle (m w).0 (m w).1 k (sm.at w);
  }

  pub IsSafe-relabel : (handle : Error → Error) (m : M W A) → IsSafe m → IsSafe (relabel handle m)
  IsSafe-relabel handle m sm = IsSafe-on_error _ m sm (λ e. IsSafe-fail (handle e))

pub IsSafe-require : {W : Type 0} (b : Bool) (e : Error) → IsSafe (require {W = W} b e)
IsSafe-require true e = record { at = λ w h. cc }
IsSafe-require false e = record { at = λ w h. cc }

module _ {W A B : Type 0} where
  continue-safe :
      (r : Result A) (f : A → M W B) (w : W)
      → ((a : A) → r ≡ ok a → IsSafe (f a))
      → r ≢ panic
      → (continue r f w).0 ≢ panic
  continue-safe (ok a) f w k h = (k a refl).at w
  continue-safe (err e) f w k h = λ i. cc
  continue-safe panic f w k h = λ _. h refl

  pub IsSafe-bind :
      (m : M W A) (f : A → M W B) → IsSafe m → ((a : A) → IsSafe (f a)) → IsSafe (m >>= f)
  unfolding ◌>>=◌
  IsSafe-bind m f sm sf = record {
    at = λ w. continue-safe (m w).0 f (m w).1 (λ a _. sf a) (sm.at w);
  }

module _ {W A B : Type 0} where
  continue-present :
      (r : Result A) (f : A → M W (Option B)) (w : W)
      → ((a : A) → IsPresent (f a))
      → (continue r f w).0 ≢ ok none
  continue-present (ok a) f w k = (k a).present w
  continue-present (err e) f w k = λ i. cc
  continue-present panic f w k = λ i. cc

  pub IsPresent-bind :
      (m : M W A) (f : A → M W (Option B))
      → IsSafe m
      → ((a : A) → IsPresent (f a))
      → IsPresent (m >>= f)
  unfolding ◌>>=◌
  IsPresent-bind m f sm pf = record {
    safe = λ w. continue-safe (m w).0 f (m w).1 (λ a _. record { at = (pf a).safe }) (sm.at w);
    present = λ w. continue-present (m w).0 f (m w).1 pf;
  }

module _ {W A B : Type 0} where
  dereferenced-IsSafe :
      (o : Option A) (f : A → M W B)
      → o ≢ none
      → ((a : A) → IsSafe (f a))
      → IsSafe (dereference o >>= f)
  unfolding ◌>>=◌
  dereferenced-IsSafe none f h sf = absurd (h refl)
  dereferenced-IsSafe (some a) f h sf = record { at = (sf a).at }

module _ {W A B : Type 0} where
  -- A pointer that is never nil may be dereferenced.
  pub IsSafe-bind_present :
      (m : M W (Option A)) (f : A → M W B)
      → IsPresent m
      → ((a : A) → IsSafe (f a))
      → IsSafe (m >>= λ o. dereference o >>= f)
  unfolding ◌>>=◌
  IsSafe-bind_present m f pm sf = record {
    at = λ w.
        continue-safe (m w).0 (λ o. dereference o >>= f) (m w).1
          (λ o e. dereferenced-IsSafe o f (λ n. pm.present w (e ∙ ap (λ x. ok x) n)) sf)
          (pm.safe w);
  }

module _ {W A : Type 0} where
  pub IsPresent-IsSafe : (m : M W (Option A)) → IsPresent m → IsSafe m
  IsPresent-IsSafe m pm = record { at = pm.safe }

  pub IsPresent-some : (a : A) → IsPresent (pure {W = W} (some a))
  IsPresent-some a = record { safe = λ w h. cc; present = λ w h. cc }

  handled-present :
      (handle : Error → Error) (r : Result (Option A)) (w : W)
      → r ≢ ok none
      → (handled (λ e. fail (handle e)) r w).0 ≢ ok none
  handled-present handle (ok a) w h = h
  handled-present handle (err e) w h = λ i. cc
  handled-present handle panic w h = λ i. cc

  pub IsPresent-relabel :
      (handle : Error → Error) (m : M W (Option A)) → IsPresent m → IsPresent (relabel handle m)
  unfolding on_error
  IsPresent-relabel handle m pm = record {
    safe = (IsSafe-relabel handle m (record { at = pm.safe })).at;
    present = λ w. handled-present handle (m w).0 (m w).1 (pm.present w);
  }

pub ruleset safe_rules = (
  IsSafe-pure, IsSafe-fail, IsSafe-lift_reply, IsSafe-or_fail, IsSafe-if, IsSafe-relabel,
  IsSafe-require, IsSafe-bind, IsPresent-bind, IsPresent-some, IsPresent-relabel,
  IsSafe-bind_present,
)
