-- ===== src/Spent/Keys.antt =====
-- The keys of sessions and of authorization codes never meet.

use Prim.Native.String.{◌++◌ as concat, slice}
use text.Mathlib.TextLemmas.{append_cancel_left, append_assoc}
use text.Mathlib.TextPositions.{slice-append_left}
use mathlib.Core.Bool.{false≢true}
use iam_service.Prelude.{String, eq_iff, ◌≡◌, ◌≢◌, ap, sym, ◌∙◌}
use iam_service.Repository.Session.{session_key}
use iam_service.Repository.AuthCode.{auth_code_key}

pub session_key-ne-auth_code_key : (id code : String) → session_key id ≢ auth_code_key code
session_key-ne-auth_code_key id code e =
    let bare : slice (auth_code_key code) 0 8 ≡ "authcode" =
      ap (λ t. slice t 0 8) (append_assoc "authcode" ":" code)
      ∙ slice-append_left "authcode" (concat ":" code) in
    let same : ◌≡◌ {A = String} "session:" "authcode" =
      sym (slice-append_left "session:" id) ∙ ap (λ t. slice t 0 8) e ∙ bare in
    false≢true ((eq_iff "session:" "authcode").1 same)

pub auth_code_key_injective : (a b : String) → auth_code_key a ≡ auth_code_key b → a ≡ b
auth_code_key_injective a b e = append_cancel_left "authcode:" a b e

pub session_key_injective : (a b : String) → session_key a ≡ session_key b → a ≡ b
session_key_injective a b e = append_cancel_left "session:" a b e
