-- ===== src/Shelf/Refines.antt =====
-- The repository of authorization codes, and the shelf that it stands for.
use iam_service.Prelude.{
  ℕ, String, List, [], ◌∷◌, Option, none, some, true, ◌≡◌, ◌∙◌, refl, sym, subst, ap, ◌==◌, eq_iff,
  ne_of_eq-false, Bool-cases, inl, inr,
}
use iam_service.Errors.{Error, auth_code_not_found, is}
use iam_service.Effect.{done_injective, done, Result, ok, err}
use iam_service.Models.{AuthCode}
use iam_service.Platform.{Platform, World, Entry, IsRedis, IsHost}
use iam_service.Repository.AuthCode.{auth_code_key, create, consume}
use iam_service.Repository.AuthCode.Held.{create-IsHeld, create-elsewhere}
use iam_service.Shelf.Consumed.{consume-inv, got, missed-vacant, consume-elsewhere, consume-vacant}
use iam_service.Shelf.Spec.{
  Item, Shelf, Event, stored, taken, missed, passed, Moves, put_on, take_off, not_there,
  time_passes, Course, fresh, then_, put, take, pass,
}
use iam_service.Shelf.Represents.{
  Holds, vacant, holds, Represents, Represents-put, Represents-take, Represents-pass,
}

module _ (p : Platform) where
  -- What the calls of the repository show.
  pub data Happens (w : World p) : Event → World p → Type 0 where
    created :
        (given : AuthCode) (code : String) (w' : World p)
        → create p given w ≡ (ok code, w')
        → Happens w (stored code given) w'
    consumed :
        (code : String) (a : AuthCode) (w' : World p)
        → consume p code w ≡ (ok (some a), w')
        → Happens w (taken code a) w'
    refused :
        (code : String) (e : Error) (w' : World p)
        → consume p code w ≡ (err e, w')
        → is e auth_code_not_found ≡ true
        → Happens w (missed code) w'
    waited : (n : ℕ) → Happens w (passed n) (record w { kv = p.redis.wait n w.kv })

  -- A history of the repository, the last event first.
  pub data Trace (w : World p) : List Event → World p → Type 0 where
    begin : Trace w [] w
    and_ :
        {events : List Event} {event : Event} {u v : World p}
        → Trace w events u
        → Happens u event v
        → Trace w (event ∷ events) v

  Holds-found :
      (item : Option Item) (entry : Option Entry) (e : Entry) (a : AuthCode)
      → Holds p item entry
      → entry ≡ some e
      → p.host.unmarshal_auth_code e.value ≡ done a
      → (left : ℕ) × (item ≡ some (a, left))
  Holds-found _ _ e a vacant h decodes = absurd (cc)
  Holds-found _ _ e a (holds b left payload was) h decodes =
      let entry : record { value = payload; ttl = some left } ≡ e = cc in
      let value : payload ≡ e.value = ap (λ (x : Entry). x.value) entry in
      let same : b ≡ a = done_injective (sym was ∙ (rw value decodes)) in
      (left, ap (λ x. some (x, left)) same)

  Holds-none :
      (item : Option Item) (entry : Option Entry) → Holds p item entry → entry ≡ none → item ≡ none
  Holds-none _ _ vacant h = refl
  Holds-none _ _ (holds b left payload was) h = absurd (cc)

  module _ (law : IsRedis p.redis) where
    -- A shelf that had none of a code is not changed by taking it away.
    Represents-missed :
        (shelf : Shelf) (w : World p) (code : String)
        → Represents p law shelf w.kv
        → law.view w.kv (auth_code_key code) ≡ none
        → Represents p law shelf (consume p code w).1.kv
    Represents-missed shelf w code before gone = record {
      at = λ other. elim (Bool-cases (code == other)) [
        | inl e ↦ rw (← (eq_iff code other).0 e) (
            subst (Holds p (shelf code)) (gone ∙ sym (consume-vacant p law code w gone))
              (before.at code))
        | inr e ↦
            subst (Holds p (shelf other))
              (sym (consume-elsewhere p law code other w (ne_of_eq-false _ _ e))) (before.at other)
      ];
    }

    module _ (host : IsHost p.host) where
      -- Each call of the repository is a move of the shelf.
      Happens-Moves :
          (shelf : Shelf) (w w' : World p) (event : Event)
          → Represents p law shelf w.kv
          → Happens w event w'
          → (shelf' : Shelf) × Moves shelf event shelf' × Represents p law shelf' w'.kv
      Happens-Moves shelf w w' _ before (created given code v run) =
          let (now, held) = create-IsHeld p law host given w run in
          (
            put shelf code (record given { created_at = now }),
            put_on code given now,
            Represents-put p law shelf w.kv w'.kv code held.payload _ before held.decodes held.held
                (λ other ne. create-elsewhere p law given w other run ne),
          )
      Happens-Moves shelf w w' _ before (consumed code a v run) =
          let (raw, ran, decodes) = consume-inv p code a w w' run in
          let (e, held, value, gone) = got p law (auth_code_key code) raw w w' ran in
          let (left, stands) = Holds-found _ _ e a (before.at code) held (rw value decodes) in
          (
            take shelf code,
            take_off code a left stands,
            Represents-take p law shelf w.kv w'.kv code before gone (λ other ne.
                subst
                  (λ (x : Result (Option AuthCode) × World p).
                    law.view x.1.kv (auth_code_key other) ≡ law.view w.kv (auth_code_key other))
                  run (consume-elsewhere p law code other w ne)),
          )
      Happens-Moves shelf w w' _ before (refused code e v run missing) =
          let gone = missed-vacant p law code e w w' _ refl run missing in
          (
            shelf,
            not_there code (Holds-none _ _ (before.at code) gone),
            subst (λ (x : Result (Option AuthCode) × World p). Represents p law shelf x.1.kv) run
                (Represents-missed shelf w code before gone),
          )
      Happens-Moves shelf w _ _ before (waited n) =
          (pass shelf n, time_passes n, Represents-pass p law shelf w.kv n before)

      -- The repository of authorization codes refines the shelf: whatever codes it creates,
      -- consumes and misses in whatever order and with whatever pauses, some history of the shelf
      -- shows the same events, if Redis and the encoders keep their laws. So a code is consumed
      -- exactly as it was stored, in its time, and once.
      pub Trace-Course :
          (shelf : Shelf) (w v : World p) (events : List Event)
          → Represents p law shelf w.kv
          → Trace w events v
          → (shelf' : Shelf) × Course shelf events shelf' × Represents p law shelf' v.kv
      Trace-Course shelf w _ _ before begin = (shelf, fresh, before)
      Trace-Course shelf w v _ before (and_ {u = u} trace step) =
          let (s, course, at_u) = Trace-Course shelf w u _ before trace in
          let (s', move, at_v) = Happens-Moves s u v _ at_u step in (s', then_ course move, at_v)
