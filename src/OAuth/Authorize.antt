-- ===== src/OAuth/Authorize.antt =====
-- coding_tools_mcp/server.py, `handle_oauth_authorize_get` and `handle_oauth_authorize_post`. The fields
-- of a form are those that `_first_form_value` gives; the page and the texts of errors are not modelled.
use Prim.Native.Char.{code}
use devmcp_runtime.OAuth.Registry.{accepts_redirect}
use devmcp_runtime.OAuth.{Clients, oauth_code_ttl_seconds, max_pending_codes, valid_pkce_challenge}
use devmcp_runtime.Base.Dict.{Dict, has, put}
use devmcp_runtime.Base.{
  ℕ, ◌+◌, String, Bool, not, ◌&&◌, Option, none, some, [], ◌∷◌, ltb, leb, ◌==◌, str_eq,
  if◌then◌else◌, length,
}

-- `Content-Length`, as `int` reads it.
pub data ContentLength : Type 0 where
  no_length malformed negative : ContentLength
  bytes : ℕ → ContentLength

abbrev pub oauth_max_body_bytes : ℕ
oauth_max_body_bytes = 8192

pub data Reply : Type 0 where
  error : ℕ → String → Reply  -- a status, and what is wrong
  login_page : Reply
  redirected : String → String → Reply  -- a URI and the code
  token : String → Reply

-- `_read_oauth_body`: the refusal, if there is one.
unfoldable pub read_refusal : ContentLength → Option Reply
read_refusal no_length = some (error 411 "Content-Length required")
read_refusal malformed = some (error 400 "Invalid Content-Length")
read_refusal negative = some (error 413 "Request body too large")
read_refusal (bytes n) =
    if leb n oauth_max_body_bytes then none else some (error 413 "Request body too large")

-- `text.rstrip("/")`
unfoldable pub rstrip_slash : String → String
rstrip_slash String.[] = String.[]
rstrip_slash (String.◌∷◌ c s) =
    let rest = rstrip_slash s in
    if code c == 47 && str_eq rest "" then String.[] else String.◌∷◌ c rest

pub record AuthorizeForm : Type 0 where
  pub response_type : String
  pub client_id : String
  pub redirect_uri : String
  pub code_challenge : String
  pub code_challenge_method : String
  pub state : String
  pub resource : String
  pub password : String

-- An entry of `pending_codes`.
pub record PendingCode : Type 0 where
  pub code_challenge : String
  pub client_id : String
  pub redirect_uri : String
  pub state : String
  pub expires_at : ℕ
  pub server_url : String
  pub resource : String

-- `OAuthConfig`, with the URL of the server.
pub record OAuth : Type 0 where
  pub password : String
  pub base_url : String
  pub token_ttl : ℕ
  pub clients : Clients
  pub pending_codes : Dict PendingCode

abbrev invalid : ℕ → String → Option Reply
invalid status what = some (error status what)

-- The tests that both handlers make, in their order.
unfoldable pub client_refusal : AuthorizeForm → OAuth → Option Reply
client_refusal f o =
    if not (has f.client_id o.clients && accepts_redirect f.client_id f.redirect_uri o.clients)
    then invalid 400 "client"
    else if not (str_eq f.code_challenge_method "S256" && valid_pkce_challenge f.code_challenge)
    then invalid 400 "PKCE"
    else if not (str_eq (rstrip_slash f.resource) o.base_url)
    then invalid 400 "resource"
    else none

unfoldable pub authorize_get : AuthorizeForm → OAuth → Reply
authorize_get f o =
    if not (str_eq f.response_type "code")
    then error 400 "response_type"
    else elim (client_refusal f o) [ some r ↦ r | none ↦ login_page ]

-- `del cfg.pending_codes[k]` for the expired ones
unfoldable pub drop_expired : ℕ → Dict PendingCode → Dict PendingCode
drop_expired now [] = []
drop_expired now ((k, p) ∷ d) =
    let rest = drop_expired now d in if ltb p.expires_at now then rest else (k, p) ∷ rest

-- The loop that pops the oldest while there are too many.
unfoldable pub drop_oldest : Dict PendingCode → Dict PendingCode
drop_oldest [] = []
drop_oldest ((k, p) ∷ d) =
    let rest = drop_oldest d in
    if leb max_pending_codes (length ((k, p) ∷ d)) then rest else (k, p) ∷ d

abbrev pub pending : ℕ → AuthorizeForm → OAuth → PendingCode
pending now f o = record {
  code_challenge = f.code_challenge;
  client_id = f.client_id;
  redirect_uri = f.redirect_uri;
  state = f.state;
  expires_at = now + oauth_code_ttl_seconds;
  server_url = o.base_url;
  resource = rstrip_slash f.resource;
}

-- What a granted request stores, under the random code.
unfoldable pub mint_code : ℕ → String → AuthorizeForm → OAuth → OAuth
mint_code now new_code f o = record o {
  pending_codes = put new_code (pending now f o) (drop_oldest (drop_expired now o.pending_codes));
}

-- The refusals of `handle_oauth_authorize_post`, in their order; `form_type` says that the content
-- type is that of a form.
unfoldable pub authorize_refusal : ContentLength → Bool → AuthorizeForm → OAuth → Option Reply
authorize_refusal size form_type f o = elim (read_refusal size) [
  | some r ↦ some r
  | none ↦ if not form_type then some (error 400 "invalid_request") else elim (client_refusal f o) [
    | some r ↦ some r
    | none ↦ if str_eq f.password o.password then none else some (error 401 "password")
  ]
]

abbrev pub mint_or_refuse : ℕ → String → AuthorizeForm → OAuth → Option Reply → Reply × OAuth
mint_or_refuse now new_code f o (some r) = (r, o)
mint_or_refuse now new_code f o none =
    (redirected f.redirect_uri new_code, mint_code now new_code f o)

unfoldable pub authorize_post :
    ContentLength → Bool → ℕ → String → AuthorizeForm → OAuth → Reply × OAuth
authorize_post size form_type now new_code f o =
    mint_or_refuse now new_code f o (authorize_refusal size form_type f o)
