-- ===== src/Repository/RefreshToken/Active.antt =====
-- Which refresh tokens remain active.
use iam_service.Prelude.{
  String, Bool, List, [], ◌∷◌, true, false, ◌&&◌, ◌≡◌, refl, sym, ap, subst, inl, inr, ltb, Option,
  some, Among, here, arith,
}
use iam_service.Effect.{Result, ok, relabel-eq-ok, from_reply-eq-ok}
use iam_service.Errors.{at}
use iam_service.Models.{Time, RefreshToken}
use iam_service.Platform.{Platform, World, IsSql}
use iam_service.Repository.RefreshToken.{
  is_null, is_active_of, get_active_by_user_id, revoke_all_for_user,
}

empty_of_no_element : {A : Type 0} (xs : List A) → ((a : A) → Among a xs → ⊥) → xs ≡ []
empty_of_no_element [] h = refl
empty_of_no_element (x ∷ xs) h = absurd (h x here)

untouched : (t n l : Bool) → (t && n) ≡ false → (t && n && l) ≡ true → ⊥
untouched t n l h h' = absurd (ground arith)

revoked_is_inactive :
    (t l : Bool) {at_time : Option Time} {now : Time}
    → at_time ≡ some now
    → (t && is_null at_time && l) ≡ true
    → ⊥
revoked_is_inactive t l h h' = untouched t false l (ground arith) (rw h at h')

module _ (p : Platform) (sql : IsSql p.sql) where
  -- After all refresh tokens of a user were revoked, none of them is active.
  pub revoke_all_for_user-get_active :
      (user_id : String) (rows : List RefreshToken) (w w' w'' : World p)
      → revoke_all_for_user p user_id w ≡ (ok tt, w')
      → get_active_by_user_id p user_id w' ≡ (ok rows, w'')
      → rows ≡ []
  unfolding revoke_all_for_user get_active_by_user_id is_active_of
  revoke_all_for_user-get_active user_id rows w w' w'' h h' =
      let revoked = relabel-eq-ok (at "RefreshTokenRepository.RevokeAllForUser") _ w h in
      let listed = relabel-eq-ok (at "RefreshTokenRepository.GetActiveByUserID") _ w' h' in
      let db : (p.sql.refresh_tokens.update _ _ w.db).1 ≡ w'.db =
        ap (λ (x : Result (Unit {0}) × World p). x.1.db) revoked in
      let ran = from_reply-eq-ok _ (ap (λ (x : Result (Unit {0}) × World p). x.0) revoked) in
      let answered =
        from_reply-eq-ok _ (ap (λ (x : Result (List RefreshToken) × World p). x.0) listed) in
      empty_of_no_element rows λ r a.
        let (held, active) = sql.refresh_tokens.select_answers _ w'.db rows answered r a in
        let own = p.sql.text_eq r.user_id user_id in
        let live = ltb (sql.refresh_tokens.now w'.db) r.expires_at in
        elim (sql.refresh_tokens.update_done _ _ w.db r ran
          (subst (λ s. sql.refresh_tokens.has s r) (sym db) held)) [
            | inl (_, other) ↦ untouched own (is_null r.revoked_at) live other active
            | inr (old, _, _, changed) ↦
                revoked_is_inactive own live (ap (λ (t : RefreshToken). t.revoked_at) changed)
                  active
          ]
