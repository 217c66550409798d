-- ===== src/Effect/Preserves.antt =====
-- Invariants of calls, with one rule for each way to build a call.
use iam_service.Prelude.{
  ◌≡◌, refl, ap, subst, Bool, true, false, maybe, Option, none, some, if◌then◌else◌,
}
use iam_service.Errors.{Error}
use iam_service.Effect.Defs.{
  respond, Result, ok, err, panic, M, pure, fail, lift, handled, relabel, on_error, continue, ◌>>=◌,
  require, or_fail, dereference,
}

-- `P` holds after the call if it held before, however the call ends.
pub record Preserves {W A : Type 0} (P : W → Type 0) (m : M W A) : Type 0 where
  pub at : (w : W) → P w → P (m w).1

module _ {W A : Type 0} {P : W → Type 0} where
  -- The invariant, at the state of a result that is known.
  pub Preserves-run :
      (m : M W A) (w : W) {r : Result A} {w' : W} → Preserves P m → m w ≡ (r, w') → P w → P w'
  Preserves-run m w keeps e h = subst P (ap (λ (x : Result A × W). x.1) e) (keeps.at w h)

  pub Preserves-pure : (a : A) → Preserves P (pure a)
  Preserves-pure a = record { at = λ w h. h }

  pub Preserves-fail : (e : Error) → Preserves P (fail {A = A} e)
  Preserves-fail e = record { at = λ w h. h }

  pub Preserves-lift : (r : Result A) → Preserves P (lift r)
  Preserves-lift r = record { at = λ w h. h }

  pub Preserves-or_fail : (e : Error) (o : Option A) → Preserves P (or_fail e o)
  Preserves-or_fail e none = record { at = λ w h. h }
  Preserves-or_fail e (some a) = record { at = λ w h. h }

  pub Preserves-dereference : (o : Option A) → Preserves P (dereference o)
  Preserves-dereference none = record { at = λ w h. h }
  Preserves-dereference (some a) = record { at = λ w h. h }

  pub Preserves-if :
      (b : Bool) (m n : M W A) → Preserves P m → Preserves P n → Preserves P (if b then m else n)
  Preserves-if true m n km kn = km
  Preserves-if false m n km kn = kn

  handled-at :
      (handle : Error → M W A) (r : Result A) (w : W)
      → ((e : Error) → Preserves P (handle e))
      → P w
      → P (handled handle r w).1
  handled-at handle (ok a) w k h = h
  handled-at handle (err e) w k h = (k e).at w h
  handled-at handle panic w k h = h

  pub Preserves-on_error :
      (handle : Error → M W A) (m : M W A)
      → Preserves P m
      → ((e : Error) → Preserves P (handle e))
      → Preserves P (on_error handle m)
  unfolding on_error
  Preserves-on_error handle m km k = record {
    at = λ w h. handled-at handle (m w).0 (m w).1 k (km.at w h);
  }

  pub Preserves-relabel :
      (handle : Error → Error) (m : M W A) → Preserves P m → Preserves P (relabel handle m)
  Preserves-relabel handle m km = Preserves-on_error _ m km (λ e. Preserves-fail (handle e))

pub Preserves-require :
    {W : Type 0} {P : W → Type 0} (b : Bool) (e : Error) → Preserves P (require {W = W} b e)
Preserves-require true e = record { at = λ w h. h }
Preserves-require false e = record { at = λ w h. h }

module _ {W A B : Type 0} {P : W → Type 0} where
  continue_at :
      (r : Result A) (f : A → M W B) (w : W)
      → ((a : A) → r ≡ ok a → Preserves P (f a))
      → P w
      → P (continue r f w).1
  continue_at (ok a) f w k h = (k a refl).at w h
  continue_at (err e) f w k h = h
  continue_at panic f w k h = h

  pub Preserves-bind :
      (m : M W A) (f : A → M W B)
      → Preserves P m
      → ((a : A) → Preserves P (f a))
      → Preserves P (m >>= f)
  unfolding ◌>>=◌
  Preserves-bind m f km kf = record {
    at = λ w h. continue_at (m w).0 f (m w).1 (λ a _. kf a) (km.at w h);
  }

  -- From one state: the rest of the call may use what the first part returned there.
  pub Preserves-bind_from :
      (w : W) (m : M W A) (f : A → M W B)
      → Preserves P m
      → ((a : A) → (m w).0 ≡ ok a → Preserves P (f a))
      → P w
      → P ((m >>= f) w).1
  unfolding ◌>>=◌
  Preserves-bind_from w m f km kf h = continue_at (m w).0 f (m w).1 kf (km.at w h)

module _ {W A B : Type 0} {P : W → Type 0} where
  pub Preserves-respond :
      (failed_with : Error → B) (finish : A → B) (m : M W A)
      → Preserves P m
      → Preserves P (respond failed_with finish m)
  unfolding respond
  Preserves-respond failed_with finish m km = record { at = km.at }

  pub Preserves-maybe :
      (m : M W B) (f : A → M W B) (o : Option A)
      → Preserves P m
      → ((a : A) → Preserves P (f a))
      → Preserves P (maybe m f o)
  unfolding maybe
  Preserves-maybe m f none km kf = km
  Preserves-maybe m f (some a) km kf = kf a

pub ruleset preserves_rules = (
  Preserves-pure, Preserves-fail, Preserves-lift, Preserves-or_fail, Preserves-dereference,
  Preserves-if, Preserves-relabel, Preserves-require, Preserves-bind, Preserves-respond,
  Preserves-maybe,
)

-- From `P` before the call follows `Q` after it, however the call ends.
pub record Leads {W A : Type 0} (P Q : W → Type 0) (m : M W A) : Type 0 where
  pub at : (w : W) → P w → Q (m w).1

module _ {W A : Type 0} {P Q : W → Type 0} (weaken : (w : W) → P w → Q w) where
  pub Leads-of_Preserves : {m : M W A} → Preserves P m → Leads P Q m
  Leads-of_Preserves {m} keeps = record { at = λ w h. weaken (m w).1 (keeps.at w h) }

module _ {W A B : Type 0} {P Q : W → Type 0} (weaken : (w : W) → P w → Q w) where
  continue-leads :
      (r : Result A) (f : A → M W B) (w : W)
      → ((a : A) → Leads P Q (f a))
      → P w
      → Q (continue r f w).1
  continue-leads (ok a) f w k h = (k a).at w h
  continue-leads (err e) f w k h = weaken w h
  continue-leads panic f w k h = weaken w h

  pub Leads-bind :
      (m : M W A) (f : A → M W B)
      → Preserves P m
      → ((a : A) → Leads P Q (f a))
      → Leads P Q (m >>= f)
  unfolding ◌>>=◌
  Leads-bind m f km kf = record { at = λ w h. continue-leads (m w).0 f (m w).1 kf (km.at w h) }

module _ {W A B : Type 0} {Q : W → Type 0} where
  continue-last :
      (r : Result A) (f : A → M W B) (w : W)
      → ((a : A) → Preserves Q (f a))
      → Q w
      → Q (continue r f w).1
  continue-last (ok a) f w k h = (k a).at w h
  continue-last (err e) f w k h = h
  continue-last panic f w k h = h

module _ {W A B : Type 0} {P Q : W → Type 0} where
  -- The first part leads from `P` to `Q`, and the rest keeps `Q`.
  pub Leads-then :
      (m : M W A) (f : A → M W B)
      → Leads P Q m
      → ((a : A) → Preserves Q (f a))
      → Leads P Q (m >>= f)
  unfolding ◌>>=◌
  Leads-then m f lm kf = record { at = λ w h. continue-last (m w).0 f (m w).1 kf (lm.at w h) }

module _ {W A : Type 0} where
  handled-leads :
      (Q : W → Type 0) (handle : Error → Error) (r : Result A) (w : W)
      → Q w
      → Q (handled (λ e. fail (handle e)) r w).1
  handled-leads Q handle (ok a) w h = h
  handled-leads Q handle (err e) w h = h
  handled-leads Q handle panic w h = h

  pub Leads-relabel :
      {P Q : W → Type 0} (handle : Error → Error) (m : M W A)
      → Leads P Q m
      → Leads P Q (relabel handle m)
  unfolding on_error
  Leads-relabel {Q} handle m lm = record {
    at = λ w h. handled-leads Q handle (m w).0 (m w).1 (lm.at w h);
  }

module _ {W A : Type 0} {P Q : W → Type 0} where
  pub Leads-if :
      (b : Bool) (m n : M W A) → Leads P Q m → Leads P Q n → Leads P Q (if b then m else n)
  Leads-if true m n lm ln = lm
  Leads-if false m n lm ln = ln
