-- ===== src/Examples/Laws/Sql.antt =====
-- The tables in memory keep the laws of MySQL, and never fail.
use iam_service.Prelude.{
  List, [], ◌∷◌, Bool, true, false, not, ◌≡◌, ◌⊎◌, inl, inr, refl, subst, sym, arith, eq_refl,
  Bool-cases, Among, here, there,
}
use iam_service.Errors.{Fault, redis_nil, no_rows, fault}
use iam_service.Effect.{done_injective, Reply, done, failed}
use iam_service.Models.{User}
use iam_service.Platform.{IsTable, Finds, IsSql, SqlIsUp}
use iam_service.Examples.Memory.{
  Tables, first, keep, change_where, table, put_users, put_clients, put_tokens, sql,
}

module _ {Row : Type 0} where
  Finds-cons :
      (test : Row → Bool) (x : Row) (rs : List Row) (reply : Reply Row)
      → test x ≡ false
      → Finds (λ r. Among r rs) test reply
      → Finds (λ r. Among r (x ∷ rs)) test reply
  Finds-cons test x rs (done r) e (a, h) = (there a, h)
  Finds-cons test x rs (failed redis_nil) e h = tt
  Finds-cons test x rs (failed (fault text)) e h = tt
  Finds-cons test x rs (failed no_rows) e h = λ r a. later r a
    where
      later : (r : Row) → Among r (x ∷ rs) → test r ≡ false
      later r here = e
      later r (there a) = h r a

  first-Finds : (test : Row → Bool) (rs : List Row) → Finds (λ r. Among r rs) test (first test rs)
  unfolding first
  first-Finds test [] = λ r a. elim a [ ]
  first-Finds test (x ∷ rs) = elim (Bool-cases (test x)) [
    | inl e ↦ rw e (here, e)
    | inr e ↦ rw e (Finds-cons test x rs (first test rs) e (first-Finds test rs))
  ]

  first-up :
      (test : Row → Bool) (rs : List Row) (f : Fault) → first test rs ≡ failed f → f ≡ no_rows
  unfolding first
  first-up test [] f h = cc
  first-up test (x ∷ rs) f h = elim (Bool-cases (test x)) [
    | inl e ↦ absurd (cc (rw e at h))
    | inr e ↦ first-up test rs f (rw e at h)
  ]

  keep-Among :
      (test : Row → Bool) (rs : List Row) (r : Row)
      → Among r (keep test rs)
      → Among r rs × (test r ≡ true)
  unfolding keep
  keep-Among test [] r a = elim a [ ]
  keep-Among test (x ∷ rs) r a = elim (Bool-cases (test x)) [
    | inl e ↦ kept x e (λ b. keep-Among test rs r b) (rw e at a)
    | inr e ↦ let (b, h) = keep-Among test rs r (rw e at a) in (there b, h)
  ]
    where
      kept :
          (y : Row)
          → test y ≡ true
          → (Among r (keep test rs) → Among r rs × (test r ≡ true))
          → Among r (y ∷ keep test rs)
          → Among r (y ∷ rs) × (test r ≡ true)
      kept y e ih here = (here, e)
      kept y e ih (there b) = let (c, h) = ih b in (there c, h)

  -- An updated row is an old row that the test leaves out, or a changed one.
  abbrev IsUpdated : (Row → Bool) → (Row → Row) → List Row → Row → Type 0
  IsUpdated test change rs r =
      (Among r rs × (test r ≡ false))
      ⊎ ((old : Row) × Among old rs × (test old ≡ true) × (r ≡ change old))

  IsUpdated-cons :
      (test : Row → Bool) (change : Row → Row) (x : Row) (rs : List Row) (r : Row)
      → IsUpdated test change rs r
      → IsUpdated test change (x ∷ rs) r
  IsUpdated-cons test change x rs r (inl (a, h)) = inl (there a, h)
  IsUpdated-cons test change x rs r (inr (old, a, h, e)) = inr (old, there a, h, e)

  change_where-Among :
      (test : Row → Bool) (change : Row → Row) (rs : List Row) (r : Row)
      → Among r (change_where test change rs)
      → IsUpdated test change rs r
  unfolding change_where
  change_where-Among test change [] r a = elim a [ ]
  change_where-Among test change (x ∷ rs) r here = elim (Bool-cases (test x)) [
    | inl e ↦ inr (x, here, e, rw e)
    | inr e ↦ subst (IsUpdated test change (x ∷ rs)) (rw e) (inl (here, e))
  ]
  change_where-Among test change (x ∷ rs) r (there a) =
      IsUpdated-cons test change x rs r (change_where-Among test change rs r a)

Among-cons : {Row : Type 0} (x r : Row) (rs : List Row) → Among r (x ∷ rs) → Among r rs ⊎ (r ≡ x)
Among-cons x r rs here = inr refl
Among-cons x r rs (there a) = inl a

module _ {S Row : Type 0} (rows : S → List Row) (put : S → List Row → S)
    (put_rows : (s : S) (rs : List Row) → rows (put s rs) ≡ rs) where
  table-IsTable : IsTable (table rows put)
  table-IsTable = record {
    has = λ s r. Among r (rows s);
    now = λ s. 100;
    find_answers = λ test s. first-Finds (test 100) (rows s);
    find_keeps = λ test s r a. a;
    find_loses_none = λ test s r a. a;
    insert_loses_none =
        λ row s r a. subst (Among r) (sym (put_rows s (row 100 ∷ rows s))) (there a);
    insert_only = λ row s r a.
        Among-cons (row 100) r (rows s) (subst (Among r) (put_rows s (row 100 ∷ rows s)) a);
    update_done = λ test change s r h a.
        change_where-Among (test 100) (change 100) (rows s) r (subst (Among r) (put_rows s _) a);
    delete_done = λ test s r h a. deleted (test 100) (rows s) r (subst (Among r) (put_rows s _) a);
    select_answers = λ test s found h r a.
        keep-Among (test 100) (rows s) r (subst (Among r) (sym (done_injective h)) a);
  }
    where
      deleted :
          (test : Row → Bool) (rs : List Row) (r : Row)
          → Among r (keep (λ x. not (test x)) rs)
          → Among r rs × (test r ≡ false)
      deleted test rs r a = let (b, h) = keep-Among (λ x. not (test x)) rs r a in (b, ground arith)

pub sql-IsSql : IsSql sql
unfolding table-IsTable
sql-IsSql = record {
  users = table-IsTable (λ s. s.users) put_users (λ s rs. refl);
  clients = table-IsTable (λ s. s.clients) put_clients (λ s rs. refl);
  refresh_tokens = table-IsTable (λ s. s.refresh_tokens) put_tokens (λ s rs. refl);
  text_eq_refl = eq_refl;
  client_find_keeps_users = λ test s u a. a;
}

pub stored : (s : Tables) (u : User) → Among u s.users → sql-IsSql.users.has s u
unfolding sql-IsSql table-IsTable
stored s u a = a

pub sql-IsUp : SqlIsUp sql
sql-IsUp = record {
  user_up = λ test s f. first-up (test 100) s.users f;
  client_up = λ test s f. first-up (test 100) s.clients f;
  token_insert_up = λ row s. refl;
}
