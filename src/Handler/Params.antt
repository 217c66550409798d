-- ===== src/Handler/Params.antt =====
-- internal/dtos: the parameters of the OAuth endpoints, read from url.Values.
use iam_service.Dtos.{AuthorizeRequest, TokenRequest}
use iam_service.Web.{Web}

module _ (n : Web) where
  unfoldable pub parse_authorize_request : n.Values → AuthorizeRequest
  parse_authorize_request q = record {
    response_type = n.get q "response_type";
    client_id = n.get q "client_id";
    redirect_uri = n.get q "redirect_uri";
    scope = n.get q "scope";
    state = n.get q "state";
    code_challenge = n.get q "code_challenge";
    code_challenge_method = n.get q "code_challenge_method";
    nonce = n.get q "nonce";
    prompt = n.get q "prompt";
    access_type = n.get q "access_type";
  }

  unfoldable pub parse_token_request : n.Values → TokenRequest
  parse_token_request f = record {
    grant_type = n.get f "grant_type";
    code = n.get f "code";
    redirect_uri = n.get f "redirect_uri";
    code_verifier = n.get f "code_verifier";
    refresh_token = n.get f "refresh_token";
    scope = n.get f "scope";
    client_id = n.get f "client_id";
    client_secret = n.get f "client_secret";
  }
