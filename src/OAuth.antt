-- ===== src/OAuth.antt =====
-- coding_tools_mcp/oauth.py: clients, their registration, the checks of redirect URIs and of PKCE, and
-- access tokens. SHA-256, `urlsplit` and the signing of a token are parameters; a random name is an
-- argument, and time is in whole seconds.
pub mod Registry
pub mod Authorize
pub mod Token
pub mod Pending
pub mod Grants
pub mod Traces
pub mod Invariant
mod Tests
use devmcp_runtime.Base.Dict.{get, put, has, Dict}
use devmcp_runtime.Base.Text.{codes}
use devmcp_runtime.Base.{
  ℕ, zero, suc, ◌+◌, ◌-◌, ◌*◌, ◌/◌, ◌%◌, ◌≤◌, ◌<◌, min, max, String, ◌≡◌, refl, sym, ap, ◌∙◌, subst,
  subst₂, fun_ext, ◌≢◌, ◌↔◌, ◌⊎◌, inl, inr, Bool, true, false, not, ◌&&◌, ◌||◌, Option, none, some,
  List, [], ◌∷◌, ◌++◌, map, arith, eq_iff, ltb, leb, ◌==◌, str_eq, if◌then◌else◌, ltb→lt, lt→ltb,
  leb→le, str_eq_self, str_eq_ne, Bool-cases, Option-cases, if_both, length, take, drop, any, all,
  keep_if, All, length-append, take-append-drop, length-take, length-drop, length-keep_if,
  Exception, tool_failure, runtime_error, value_error, file_exists_error, os_error, Result, ok,
  raised, Exec, ◌>>=◌, ◌>>◌, guard, pure, raise, continue, bind, continue_state, bind_state,
  sequence_ok,
}

abbrev pub oauth_code_ttl_seconds : ℕ
oauth_code_ttl_seconds = 300

abbrev pub max_redirect_uris : ℕ
max_redirect_uris = 10

abbrev pub max_registered_clients : ℕ
max_registered_clients = 1024

abbrev pub max_pending_codes : ℕ
max_pending_codes = 256

pub record OAuthClient : Type 0 where
  pub client_id : String
  pub redirect_uris : List String
  pub token_endpoint_auth_method : String
  pub client_name : Option String
  pub secret_digest : Option String

abbrev pub Clients : Type 0
Clients = Dict OAuthClient

-- `a in b`
unfoldable pub string_in : String → List String → Bool
string_in a [] = false
string_in a (b ∷ bs) = str_eq a b || string_in a bs

abbrev pub option_eq : Option String → Option String → Bool
option_eq none none = true
option_eq none (some b) = false
option_eq (some a) none = false
option_eq (some a) (some b) = str_eq a b

-- What `urllib.parse.urlsplit` reads off a URI, where it does not raise.
pub record Uri : Type 0 where
  pub scheme : String
  pub netloc : String
  pub hostname : String  -- lowered; empty where it is `None`
  pub fragment : String
  pub user_info : Bool  -- a user name or a password is there

abbrev pub text_length : String → ℕ
text_length String.[] = 0
text_length (String.◌∷◌ c s) = suc (text_length s)

-- The checks of one URI, in their order.
unfoldable pub check_uri : Uri → Result (Unit {0})
check_uri u = do
  guard
      (str_eq u.fragment ""
        && not (str_eq u.scheme "")
        && not (str_eq u.netloc "")
        && not (str_eq u.hostname ""))
      (value_error "redirect_uri must be an absolute URI without a fragment")
  guard (not u.user_info) (value_error "redirect_uri must not contain user information")
  guard
      (not (
        str_eq u.scheme "http"
        && not (string_in u.hostname ("localhost" ∷ "127.0.0.1" ∷ "::1" ∷ []))))
      (value_error "HTTP redirect_uri is allowed only for loopback hosts")
  guard (string_in u.scheme ("http" ∷ "https" ∷ []))
      (value_error "redirect_uri must use HTTPS or loopback HTTP")

abbrev bad_uri : Exception
bad_uri = value_error "redirect_uri must be a string of at most 2048 characters"

unfoldable pub distinct : List String → Bool
distinct [] = true
distinct (a ∷ as') = not (string_in a as') && distinct as'

module _ (urlsplit : String → Result Uri) where
  -- The loop over the entries, of which one may be no string.
  unfoldable pub check_all : List (Option String) → Result (List String)
  check_all [] = ok []
  check_all (none ∷ items) = raised bad_uri
  check_all (some item ∷ items) = do
    guard (leb (text_length item) 2048) bad_uri
    uri ← urlsplit item
    check_uri uri
    rest ← check_all items
    ok (item ∷ rest)

  -- `value` is `none` where it is no list.
  unfoldable pub validate_redirect_uris : Option (List (Option String)) → Result (List String)
  validate_redirect_uris none =
      raised (value_error "redirect_uris must contain between 1 and 10 entries")
  validate_redirect_uris (some items) = do
    guard (leb 1 (length items) && leb (length items) max_redirect_uris)
        (value_error "redirect_uris must contain between 1 and 10 entries")
    redirects ← check_all items
    guard (distinct redirects) (value_error "redirect_uris must be unique")
    ok redirects

-- `[A-Za-z0-9\-._~]`
unfoldable pub is_unreserved : ℕ → Bool
is_unreserved c =
    (leb 65 c && leb c 90)
    || (leb 97 c && leb c 122)
    || (leb 48 c && leb c 57)
    || c == 45
    || c == 46
    || c == 95
    || c == 126

-- `[A-Za-z0-9_-]`
unfoldable pub is_base64url : ℕ → Bool
is_base64url c =
    (leb 65 c && leb c 90)
    || (leb 97 c && leb c 122)
    || (leb 48 c && leb c 57)
    || c == 95
    || c == 45

unfoldable pub valid_verifier : String → Bool
valid_verifier v = leb 43 (text_length v) && leb (text_length v) 128 && all is_unreserved (codes v)

-- `challenge` is the base64url form of a SHA-256 hash.
unfoldable pub verify_pkce : (String → String) → String → String → Bool
verify_pkce challenge code_verifier code_challenge =
    valid_verifier code_verifier && str_eq (challenge code_verifier) code_challenge

unfoldable pub valid_pkce_challenge : String → Bool
valid_pkce_challenge c = text_length c == 43 && all is_base64url (codes c)

-- The claims of an access token.
pub record Claims : Type 0 where
  pub iss : String
  pub aud : String
  pub sub : String
  pub client_id : Option String
  pub iat : ℕ
  pub exp : ℕ
  pub scope : String

unfoldable pub create_access_token : (Claims → String) → ℕ → ℕ → String → String → String
create_access_token sign token_ttl now server_url client_id = sign record {
  iss = server_url;
  aud = server_url;
  sub = client_id;
  client_id = some client_id;
  iat = now;
  exp = now + token_ttl;
  scope = "mcp";
}

-- `decode` is `jwt.decode` by audience, issuer and time; `none` where it raises.
unfoldable pub validate_access_token :
    (String → String → ℕ → String → Option Claims) → String → ℕ → String → Clients → Bool
validate_access_token decode token now server_url clients =
    elim (decode server_url server_url now token) [
      | none ↦ false
      | some c ↦ elim c.client_id [ none ↦ false | some id ↦ has id clients ]
    ]
