-- ===== src/OAuth/Tests.antt =====
-- A client that registers, authorizes and exchanges its code, at the OAuth handlers of
-- coding_tools_mcp/server.py.
use devmcp_runtime.Base.Dict.{get, put, pop}
use devmcp_runtime.OAuth.Grants.{Earned, handle_token-Earned}
use devmcp_runtime.OAuth.Invariant.{Bounded, run-Bounded}
use devmcp_runtime.OAuth.Token.{
  TokenForm, handle_token, token_refusal, presented, token_reply, code_refusal,
}
use devmcp_runtime.OAuth.Registry.{
  Metadata, register_client, check_metadata, add_client, accepts_redirect, authenticates,
  verifies_secret,
}
use devmcp_runtime.OAuth.Authorize.{
  OAuth, AuthorizeForm, bytes, authorize_post, authorize_refusal, read_refusal, client_refusal,
  rstrip_slash, mint_code, drop_expired, drop_oldest, PendingCode, token, error,
}
use devmcp_runtime.OAuth.Traces.{
  OAuthOp, register_in, register_op, run, authorize_op, token_op, granted, minted,
  granted_le_minted,
}
use devmcp_runtime.OAuth.{
  verify_pkce, Claims, Uri, validate_redirect_uris, check_all, check_uri, string_in, distinct,
  valid_pkce_challenge, is_base64url, valid_verifier, is_unreserved, verify_pkce,
  create_access_token,
}
use devmcp_runtime.Base.{
  ◌≤◌, String, ◌≡◌, refl, true, false, none, some, List, [], ◌∷◌, arith, take, Result, ok,
}

-- A URI that `urlsplit` reads as that of a server on this host.
abbrev loopback : String → Result Uri
loopback s = ok record {
  scheme = "http";
  netloc = "localhost";
  hostname = "localhost";
  fragment = "";
  user_info = false;
}

abbrev same_text : String → String
same_text s = s

abbrev key : String
key = "abcdefghijklmnopqrstuvwxyzABCDEFGHIJKLMNOPQ"

abbrev sign_name : Claims → String
sign_name c = c.sub

abbrev metadata : Metadata
metadata = record {
  redirect_uris = some (some "http://localhost/cb" ∷ []);
  grant_types = none;
  response_types = none;
  token_endpoint_auth_method = none;
  client_name = none;
}

abbrev form : AuthorizeForm
form = record {
  response_type = "code";
  client_id = "c1";
  redirect_uri = "http://localhost/cb";
  code_challenge = key;
  code_challenge_method = "S256";
  state = "";
  resource = "https://host/";
  password = "open";
}

abbrev exchange : TokenForm
exchange = record {
  grant_type = "authorization_code";
  code = "k1";
  redirect_uri = "http://localhost/cb";
  code_verifier = key;
  client_id = "c1";
  client_secret = "";
  resource = "https://host";
  basic = none;
}

abbrev server : OAuth
server = record {
  password = "open";
  base_url = "https://host";
  token_ttl = 60;
  clients = [];
  pending_codes = [];
}

abbrev requests : List OAuthOp
requests =
    register_op metadata "c1" "secret"
    ∷ authorize_op (bytes 100) true 1000 "k1" form
    ∷ token_op (bytes 100) true 1010 exchange
    ∷ token_op (bytes 100) true 1011 exchange
    ∷ []

abbrev before : OAuth
before = run loopback same_text same_text sign_name (take 2 requests) server

replies :
    ((handle_token same_text same_text sign_name (bytes 100) true 1010 exchange before).0
      ≡ token "c1")
    × ((handle_token same_text same_text sign_name (bytes 100) true 1301 exchange before).0
        ≡ error 400 "invalid_grant")
    × (granted loopback same_text same_text sign_name "k1" requests server ≡ 1)
    × (minted loopback same_text same_text sign_name "k1" requests server ≡ 1)
unfolding register_in register_client check_metadata validate_redirect_uris check_all check_uri
    string_in distinct add_client authorize_post authorize_refusal read_refusal client_refusal
    accepts_redirect valid_pkce_challenge is_base64url rstrip_slash mint_code drop_expired
    drop_oldest handle_token token_refusal presented authenticates verifies_secret valid_verifier
    is_unreserved token_reply code_refusal create_access_token get put pop verify_pkce
replies = (refl, refl, refl, refl)

server-Bounded : Bounded "https://host" server
server-Bounded = record {
  same_server = refl;
  distinct_codes = tt;
  few_codes = omega arith;
  few_clients = omega arith;
  entitled = tt;
}

before-Bounded : Bounded "https://host" before
before-Bounded =
    run-Bounded loopback same_text same_text sign_name "https://host" (take 2 requests) server
      server-Bounded

handle_token-Earned_example :
    (c : PendingCode) × Earned same_text same_text sign_name 1010 exchange before c
    × ("c1" ≡ create_access_token sign_name before.token_ttl 1010 c.resource c.client_id)
    × (get "k1"
          (handle_token same_text same_text sign_name
            (bytes 100)
            true
            1010
            exchange
            before).1.pending_codes
        ≡ none)
handle_token-Earned_example =
    handle_token-Earned same_text same_text sign_name (bytes 100) true 1010 exchange before "c1"
      before-Bounded.distinct_codes replies.0

granted_le_minted_example :
    granted loopback same_text same_text sign_name "k1" requests server
    ≤ minted loopback same_text same_text sign_name "k1" requests server
unfolding get
granted_le_minted_example =
    granted_le_minted loopback same_text same_text sign_name "k1" requests server tt refl

run-Bounded_example :
    Bounded "https://host" (run loopback same_text same_text sign_name requests server)
run-Bounded_example =
    run-Bounded loopback same_text same_text sign_name "https://host" requests server server-Bounded
