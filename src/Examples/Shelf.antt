-- ===== src/Examples/Shelf.antt =====
-- A code that is stored, taken and missed, on the platform in memory.
use iam_service.Prelude.{List, [], ◌∷◌, none, refl, sym, subst}
use iam_service.Errors.{sentinel, auth_code_not_found}
use iam_service.Platform.{World}
use iam_service.Repository.AuthCode.{create, consume}
use iam_service.App.Sessions.{later}
use iam_service.Shelf.Spec.{Shelf, Event, stored, taken, missed, passed, Course}
use iam_service.Shelf.Represents.{Holds, vacant, Represents}
use iam_service.Shelf.Refines.{Trace, begin, and_, created, consumed, refused, waited, Trace-Course}
use iam_service.Examples.Memory.{platform, a_code}
use iam_service.Examples.Laws.{redis-IsRedis, host-IsHost}
use iam_service.Examples.Flow.{running, before}
use iam_service.Examples.Server.{no_codes}

abbrev empty : Shelf
empty code = none

abbrev w1 : World platform
w1 = (create platform a_code before).1

abbrev w2 : World platform
w2 = later platform 9 w1

abbrev w3 : World platform
w3 = (consume platform "iiiii" w2).1

abbrev w4 : World platform
w4 = (consume platform "iiiii" w3).1

abbrev events : List Event
events = missed "iiiii" ∷ taken "iiiii" a_code ∷ passed 9 ∷ stored "iiiii" a_code ∷ []

trace : Trace platform before events w4
unfolding running
trace =
    and_
      (and_ (and_ (and_ begin (created a_code "iiiii" w1 refl)) (waited 9))
        (consumed "iiiii" a_code w3 refl))
      (refused "iiiii" (sentinel auth_code_not_found) w4 refl refl)

Trace-Course_example :
    (shelf : Shelf) × Course empty events shelf × Represents platform redis-IsRedis shelf w4.kv
Trace-Course_example =
    Trace-Course platform redis-IsRedis host-IsHost empty before w4 events
      (record { at = λ code. subst (Holds platform none) (sym (no_codes code)) vacant }) trace
