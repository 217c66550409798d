-- ===== src/Shelf/Spec.antt =====
-- A shelf of authorization codes with a time to live, each of which can be taken once.
use iam_service.Prelude.{
  ℕ, ◌-◌, String, List, [], ◌∷◌, Option, none, some, ◌≡◌, ◌==◌, leb, if◌then◌else◌,
}
use iam_service.Models.{Time, AuthCode}
use iam_service.Repository.AuthCode.{auth_code_ttl}

-- A code's data and the time that is left to take it.
abbrev pub Item : Type 0
Item = AuthCode × ℕ

abbrev pub Shelf : Type 0
Shelf = String → Option Item

abbrev pub put : Shelf → String → AuthCode → Shelf
put shelf code a other = if code == other then some (a, auth_code_ttl) else shelf other

abbrev pub take : Shelf → String → Shelf
take shelf code other = if code == other then none else shelf other

abbrev pub left_after : ℕ → Option Item → Option Item
left_after n none = none
left_after n (some (a, left)) = if leb left n then none else some (a, left - n)

abbrev pub pass : Shelf → ℕ → Shelf
pass shelf n other = left_after n (shelf other)

-- What is seen of the shelf.
pub data Event : Type 0 where
  stored : (code : String) → AuthCode → Event
  taken : (code : String) → AuthCode → Event
  missed : (code : String) → Event
  passed : ℕ → Event

-- A code is stored with the time of its creation; it is taken exactly as it was stored and then is
-- gone; it is missed exactly where the shelf has none.
pub data Moves (shelf : Shelf) : Event → Shelf → Type 0 where
  put_on :
      (code : String) (given : AuthCode) (now : Time)
      → Moves shelf (stored code given) (put shelf code (record given { created_at = now }))
  take_off :
      (code : String) (a : AuthCode) (left : ℕ)
      → shelf code ≡ some (a, left)
      → Moves shelf (taken code a) (take shelf code)
  not_there : (code : String) → shelf code ≡ none → Moves shelf (missed code) shelf
  time_passes : (n : ℕ) → Moves shelf (passed n) (pass shelf n)

-- A history of the shelf, the last event first.
pub data Course (shelf : Shelf) : List Event → Shelf → Type 0 where
  fresh : Course shelf [] shelf
  then_ :
      {events : List Event} {event : Event} {s s' : Shelf}
      → Course shelf events s
      → Moves s event s'
      → Course shelf (event ∷ events) s'
