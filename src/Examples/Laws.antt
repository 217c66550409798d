-- ===== src/Examples/Laws.antt =====
-- The platform in memory keeps the laws, and never fails.
mod Sql
pub use Sql.{sql-IsSql, sql-IsUp, stored}
use Prim.Native.String.{◌++◌ as concat, slice}
use text.Mathlib.TextPositions.{slice-append_left}
use mathlib.Core.Bool.{false≢true}
use Prim.Native.Nat.{◌/◌}
use iam_service.Prelude.{
  Option-cases, String, List, [], ◌∷◌, Bool, true, false, not, ◌≡◌, ◌≢◌, ◌⊎◌, inl, inr, refl, ap,
  subst, sym, ◌∙◌, arith, Option, none, some, ◌==◌, eq_iff, eq_refl, eq-false_of_ne, Bool-cases,
  Among, here, there, contains,
}
use iam_service.Errors.{Fault, redis_nil, no_rows, fault}
use iam_service.Effect.{done_injective, Reply, done, failed}
use iam_service.Models.{User, Session, AuthCode}
use iam_service.Platform.{
  Entry, TtlAnswers, IsRedis, RedisIsUp, Answers, IsTable, Finds, IsSql, SqlIsUp, IsHost,
}
use iam_service.Examples.Memory.{
  Tables, answer, remaining, redis, first, keep, change_where, table, put_users, put_clients,
  put_tokens, sql, a_session, a_code, same_texts, same_session, same_code, marshal_session,
  marshal_auth_code, encoded, host,
}

pub answer-Answers : (held : Option Entry) → Answers held (answer held)
answer-Answers none = refl
answer-Answers (some e) = (e, refl, refl)

answer-up : (held : Option Entry) (f : Fault) → answer held ≡ failed f → f ≡ redis_nil
answer-up none f h = cc
answer-up (some e) f h = absurd (cc)

pub remaining-TtlAnswers : (held : Option Entry) → TtlAnswers held (done (remaining held))
remaining-TtlAnswers none = refl
remaining-TtlAnswers (some e) = elim (Option-cases e.ttl) [
  | inl h ↦ rw h (inl (refl, refl))
  | inr (left, h) ↦ rw h (inr (left, left / 1000000000, refl, refl))
]

unfoldable pub redis-IsRedis : IsRedis redis
redis-IsRedis = record {
  view = λ s k. s k;
  set_done = λ k v ttl s h. rw (eq_refl k);
  set_self = λ k v ttl s. inl (rw (eq_refl k));
  set_other = λ k j v ttl s ne. rw (eq-false_of_ne k j ne);
  get_answers = λ k s. answer-Answers (s k);
  get_keeps = λ k j s. refl;
  get_del_answers = λ k s. answer-Answers (s k);
  get_del_done = λ k v s h. rw (eq_refl k);
  get_del_self = λ k s. inl (rw (eq_refl k));
  get_del_other = λ k j s ne. rw (eq-false_of_ne k j ne);
  del_done = λ ks k s h. refl;
  del_self =
      λ ks k s. elim (Bool-cases (contains ks k)) [ inl e ↦ inl (rw e) | inr e ↦ inr (rw e) ];
  ttl_answers = λ k s. remaining-TtlAnswers (s k);
  wait_ages = λ n k s. refl;
}

pub redis-IsUp : RedisIsUp redis
redis-IsUp = record {
  set_up = λ k v ttl s. refl;
  get_up = λ k s f. answer-up (s k) f;
  get_del_up = λ k s f. answer-up (s k) f;
  del_up = λ ks s. refl;
}

encoded-inv :
    (b : Bool) (label text : String) → encoded b label ≡ done text → (b ≡ true) × (label ≡ text)
encoded-inv true label text h = (refl, done_injective h)
encoded-inv false label text h = absurd (cc)

pub same_texts_sound : (xs ys : List String) → same_texts xs ys ≡ true → xs ≡ ys
unfolding same_texts
same_texts_sound [] [] h = refl
same_texts_sound (x ∷ xs) (y ∷ ys) h = ground (arith, eq_iff x y, same_texts_sound xs ys)
same_texts_sound _ _ h = absurd (cc)

same_session_sound : (a b : Session) → same_session a b ≡ true → a ≡ b
unfolding same_session
same_session_sound a b h = ground (arith, eq_iff a.user_id b.user_id, eq_iff a.email b.email)

same_code_sound : (a b : AuthCode) → same_code a b ≡ true → a ≡ b
unfolding same_code
same_code_sound a b h = ground (
  arith,
  eq_iff a.client_id b.client_id,
  eq_iff a.user_id b.user_id,
  eq_iff a.redirect_uri b.redirect_uri,
  same_texts_sound a.scope b.scope,
  eq_iff a.code_challenge b.code_challenge,
  eq_iff a.code_challenge_method b.code_challenge_method,
  eq_iff a.nonce b.nonce,
)

session_back :
    (a : Session) (text : String)
    → marshal_session a ≡ done text
    → host.unmarshal_session text ≡ done a
session_back a text h =
    let (same, label) = encoded-inv (same_session a a_session) "session" text h in
    rw (← label) (ap done (sym (same_session_sound a a_session same)))

code_back :
    (a : AuthCode) (text : String)
    → marshal_auth_code a ≡ done text
    → host.unmarshal_auth_code text ≡ done a
code_back a text h =
    let (same, label) = encoded-inv (same_code a a_code) "code" text h in
    rw (← label) (ap done (sym (same_code_sound a a_code same)))

prefix-ne-empty : (password : String) → concat "$2" password ≢ ""
prefix-ne-empty password e =
    false≢true
      ((eq_iff "$2" "").1 (sym (slice-append_left "$2" password) ∙ ap (λ t. slice t 0 2) e))

pub host-IsHost : IsHost host
host-IsHost = record {
  compare-generate = λ password hash s h.
      subst (λ t. (t == concat "$2" password) ≡ true) (done_injective h)
        (eq_refl (concat "$2" password));
  generate-ne-empty = λ password hash s h e. prefix-ne-empty password (done_injective h ∙ e);
  unmarshal-marshal_session = λ a text h. session_back a text h;
  unmarshal-marshal_auth_code = λ a text h. code_back a text h;
}
