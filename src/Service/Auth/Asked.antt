-- ===== src/Service/Auth/Asked.antt =====
-- What `Authorize` asks of the scopes and of the prompt of a request.
use iam_service.Prelude.{
  String, List, [], ◌∷◌, true, false, ◌&&◌, ◌||◌, not, ◌≡◌, ◌≢◌, refl, ◌⊎◌, inl, inr, arith,
  Bool-cases, All, Among, contains, contains_sound, contains_complete,
}
use iam_service.Models.{Client, Session, AuthCode}
use iam_service.Dtos.{AuthorizeRequest}
use iam_service.Text.{fields}
use iam_service.Utils.{contains_all, contains_all_iff}
use iam_service.Service.Auth.{is_alone, is_empty}

-- The requested scopes: at least one, and all registered for the client.
pub record HasScope (req : AuthorizeRequest) (client : Client) : Type 0 where
  pub some_requested : fields req.scope ≢ []
  pub all_registered : All (λ s. Among s client.scopes) (fields req.scope)

-- "none" among the prompts stands alone.
abbrev pub PromptIsValid : AuthorizeRequest → Type 0
PromptIsValid req = (¬ Among "none" (fields req.prompt)) ⊎ (is_alone (fields req.prompt) ≡ true)

pub not_empty : (xs : List String) → xs ≢ [] → is_empty xs ≡ false
not_empty [] h = absurd (h refl)
not_empty (x ∷ xs) h = refl

pub bad_scope :
    (req : AuthorizeRequest) (client : Client)
    → (is_empty (fields req.scope) || not (contains_all client.scopes (fields req.scope))) ≡ true
    → ¬ HasScope req client
bad_scope req client h s =
    let registered = (contains_all_iff client.scopes (fields req.scope)).1 s.all_registered in
    cc (h, not_empty (fields req.scope) s.some_requested, registered)

pub good_scope :
    (req : AuthorizeRequest) (client : Client)
    → (is_empty (fields req.scope) || not (contains_all client.scopes (fields req.scope))) ≡ false
    → HasScope req client
good_scope req client h = record {
  some_requested = λ e. absurd (cc (e, h));
  all_registered = (contains_all_iff client.scopes (fields req.scope)).0 (ground arith);
}

pub bad_prompt :
    (req : AuthorizeRequest)
    → (contains (fields req.prompt) "none" && not (is_alone (fields req.prompt))) ≡ true
    → ¬ PromptIsValid req
bad_prompt req h (inl absent) = absent (contains_sound _ _ (ground arith))
bad_prompt req h (inr alone) = absurd (ground arith)

pub good_prompt :
    (req : AuthorizeRequest)
    → (contains (fields req.prompt) "none" && not (is_alone (fields req.prompt))) ≡ false
    → PromptIsValid req
good_prompt req h = elim (Bool-cases (contains (fields req.prompt) "none")) [
  | inl silent ↦ inr (ground arith)
  | inr said ↦ inl (λ a. cc (contains_complete (fields req.prompt) "none" a, said))
]

abbrev pub code_for : AuthorizeRequest → Client → Session → AuthCode
code_for req client session = record {
  client_id = client.id;
  user_id = session.user_id;
  redirect_uri = req.redirect_uri;
  scope = fields req.scope;
  code_challenge = req.code_challenge;
  code_challenge_method = req.code_challenge_method;
  nonce = req.nonce;
  created_at = 0;
}
