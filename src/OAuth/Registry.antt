-- ===== src/OAuth/Registry.antt =====
-- coding_tools_mcp/oauth.py, `OAuthClientRegistry` and `OAuthClient`.
use devmcp_runtime.Base.Dict.{get, put}
use devmcp_runtime.OAuth.{
  string_in, Uri, Clients, OAuthClient, validate_redirect_uris, max_registered_clients,
}
use devmcp_runtime.Base.{
  String, Bool, false, not, ◌&&◌, Option, none, some, List, [], ◌∷◌, leb, str_eq, if◌then◌else◌,
  length, value_error, Result, ok, raised, Exec, ◌>>=◌, ◌>>◌, guard, continue,
}

-- The metadata of a registration. A field that is absent is `none`; `grant_types` and
-- `response_types` are `some none` where they are no array of strings, and
-- `client_name` is what `_optional_text` gives.
pub record Metadata : Type 0 where
  pub redirect_uris : Option (List (Option String))
  pub grant_types : Option (Option (List String))
  pub response_types : Option (Option (List String))
  pub token_endpoint_auth_method : Option String
  pub client_name : Option String

-- The supported ones among the requested ones: there is one that is supported.
abbrev pub asks_for : String → Option (Option (List String)) → String → Result (Unit {0})
asks_for supported none what = ok tt
asks_for supported (some none) what = raised (value_error what)
asks_for supported (some (some requested)) what =
    guard (string_in supported requested) (value_error what)

abbrev pub method_of : Option String → String
method_of none = "none"
method_of (some m) = if str_eq m "" then "none" else m

-- `OAuthClient.accepts_redirect`, by the registry
unfoldable pub accepts_redirect : String → String → Clients → Bool
accepts_redirect client_id redirect_uri clients = elim (get client_id clients) [
  | none ↦ false
  | some c ↦ string_in redirect_uri c.redirect_uris
]

module _ (digest : String → String) where
  -- `OAuthClient.verifies_secret`
  unfoldable pub verifies_secret : OAuthClient → String → Bool
  verifies_secret c secret =
      if str_eq c.token_endpoint_auth_method "none"
      then str_eq secret ""
      else elim c.secret_digest [
        | none ↦ false
        | some d ↦ not (str_eq secret "") && str_eq d (digest secret)
      ]

  unfoldable pub authenticates : String → String → String → Clients → Bool
  authenticates client_id client_secret auth_method clients = elim (get client_id clients) [
    | none ↦ false
    | some c ↦ str_eq c.token_endpoint_auth_method auth_method && verifies_secret c client_secret
  ]

module _ (urlsplit : String → Result Uri) (digest : String → String) where
  unfoldable pub add_preregistered :
      String → List (Option String) → Option String → Exec Clients (Unit {0})
  add_preregistered client_id redirect_uris client_secret clients =
      continue (validate_redirect_uris urlsplit (some redirect_uris))
        (λ redirects clients'. (
          ok tt,
          put client_id
              record {
                client_id = client_id;
                redirect_uris = redirects;
                token_endpoint_auth_method = elim client_secret [
                  | none ↦ "none"
                  | some s ↦ "client_secret_post"
                ];
                client_name = none;
                secret_digest = elim client_secret [ none ↦ none | some s ↦ some (digest s) ];
              }
              clients',
        ))
        clients

  -- The checks of `OAuthClientRegistry.register`, in their order.
  unfoldable pub check_metadata : Metadata → Result (List String × String)
  check_metadata m = do
    redirects ← validate_redirect_uris urlsplit m.redirect_uris
    asks_for "authorization_code" m.grant_types "grant_types"
    asks_for "code" m.response_types "response_types"
    let method = method_of m.token_endpoint_auth_method
    guard (string_in method ("none" ∷ "client_secret_post" ∷ "client_secret_basic" ∷ []))
        (value_error "unsupported token_endpoint_auth_method")
    ok (redirects, method)

  -- `client_id` is the draw at which the loop ends, `client_secret` the random secret.
  unfoldable pub add_client :
      Metadata → String → String → List String × String → Exec Clients OAuthClient
  add_client m client_id client_secret (redirects, method) clients =
      let client : OAuthClient = record {
        client_id = client_id;
        redirect_uris = redirects;
        token_endpoint_auth_method = method;
        client_name = m.client_name;
        secret_digest = if str_eq method "none" then none else some (digest client_secret);
      } in
      if leb max_registered_clients (length clients)
      then (raised (value_error "dynamic client registration limit reached"), clients)
      else (ok client, put client_id client clients)

  unfoldable pub register_client : Metadata → String → String → Exec Clients OAuthClient
  register_client m client_id client_secret clients =
      continue (check_metadata m) (add_client m client_id client_secret) clients
