-- ===== src/Effect/Defs.antt =====
-- The effects and their combinators.
use iam_service.Prelude.{Bool, true, false, Option, none, some}
use iam_service.Errors.{Error, Fault, foreign}

-- How a call ends: with a value, with a non-nil error, or in a panic.
pub data Result (A : Type 0) : Type 0 where
  ok : A → Result A
  err : Error → Result A
  panic : Result A

-- What a call of a system outside the program answers.
pub data Reply (A : Type 0) : Type 0 where
  done : A → Reply A
  failed : Fault → Reply A

abbrev pub from_reply : {A : Type 0} → Reply A → Result A
from_reply (done a) = ok a
from_reply (failed f) = err (foreign f)

-- An action over the state `W`.
abbrev pub M : Type 0 → Type 0 → Type 0
M W A = W → Result A × W

module _ {W A : Type 0} where
  abbrev pub pure : A → M W A
  pure a w = (ok a, w)

  abbrev pub fail : Error → M W A
  fail e w = (err e, w)

  abbrev pub nil_dereference : M W A
  nil_dereference w = (panic, w)

  abbrev pub lift : Result A → M W A
  lift r w = (r, w)

  -- `if err != nil { … }`: `handle` says what the branch does with the error.
  abbrev pub handled : (Error → M W A) → Result A → M W A
  handled handle (ok a) w = (ok a, w)
  handled handle (err e) w = handle e w
  handled handle panic w = (panic, w)

  unfoldable pub on_error : (Error → M W A) → M W A → M W A
  on_error handle m w = let (r, w') = m w in handled handle r w'

  -- `if err != nil { return zero, … }`: the error is replaced, and stays an error.
  abbrev pub relabel : (Error → Error) → M W A → M W A
  relabel handle m = on_error (λ e. fail (handle e)) m

module _ {W A B : Type 0} where
  abbrev pub continue : Result A → (A → M W B) → M W B
  continue (ok a) f w = f a w
  continue (err e) f w = (err e, w)
  continue panic f w = (panic, w)

  infixl 5 ◌>>=◌ ◌>>◌
  unfoldable pub ◌>>=◌ : M W A → (A → M W B) → M W B
  ◌>>=◌ m f w = let (r, w') = m w in continue r f w'

  abbrev pub ◌>>◌ : M W A → M W B → M W B
  m >> n = m >>= λ _. n

abbrev pub settled : {A B : Type 0} → (Error → B) → (A → B) → Result A → Result B
settled failed_with finish (ok a) = ok (finish a)
settled failed_with finish (err e) = ok (failed_with e)
settled failed_with finish panic = panic

module _ {W A B : Type 0} where
  -- `a, err := m; if err != nil { … }`, where both branches end with a value.
  unfoldable pub respond : (Error → B) → (A → B) → M W A → M W B
  respond failed_with finish m w = let (r, w') = m w in (settled failed_with finish r, w')

-- `if !b { return nil, err }`.
abbrev pub require : {W : Type 0} → Bool → Error → M W (Unit {0})
require true e w = (ok tt, w)
require false e w = (err e, w)

-- `if x == nil { return nil, err }`
abbrev pub or_fail : {W A : Type 0} → Error → Option A → M W A
or_fail e none = fail e
or_fail e (some a) = pure a

-- A field of a pointer is read.
abbrev pub dereference : {W A : Type 0} → Option A → M W A
dereference none = nil_dereference
dereference (some a) = pure a
