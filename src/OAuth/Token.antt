-- ===== src/OAuth/Token.antt =====
-- coding_tools_mcp/server.py, `handle_oauth_token` and the OAuth part of `_authorized`.
use devmcp_runtime.OAuth.Registry.{authenticates}
use devmcp_runtime.Base.Dict.{get, pop, has}
use devmcp_runtime.OAuth.Authorize.{
  Reply, PendingCode, error, ContentLength, OAuth, rstrip_slash, token, read_refusal,
}
use devmcp_runtime.OAuth.{Claims, verify_pkce, create_access_token, valid_verifier}
use devmcp_runtime.Base.{ℕ, String, Bool, not, ◌||◌, Option, none, some, ltb, str_eq, if◌then◌else◌}

-- The fields of the form. `basic` holds the client and the secret of an `Authorization: Basic` header
-- that decodes.
pub record TokenForm : Type 0 where
  pub grant_type : String
  pub code : String
  pub redirect_uri : String
  pub code_verifier : String
  pub client_id : String
  pub client_secret : String
  pub resource : String
  pub basic : Option (String × String)

-- Who the caller says it is, with its secret and how it presents it.
pub record Presented : Type 0 where
  pub client_id : String
  pub client_secret : String
  pub auth_method : String

abbrev or_else : String → String → String
or_else a b = if str_eq a "" then b else a

unfoldable pub presented : TokenForm → Presented
presented f =
    let plain : Presented = record {
      client_id = f.client_id;
      client_secret = f.client_secret;
      auth_method = if str_eq f.client_secret "" then "none" else "client_secret_post";
    } in
    elim f.basic [
      | none ↦ plain
      | some (basic_id, basic_secret) ↦
          if str_eq f.client_id "" || str_eq f.client_secret ""
          then record {
            client_id = or_else f.client_id basic_id;
            client_secret = or_else f.client_secret basic_secret;
            auth_method = "client_secret_basic";
          }
          else plain
    ]

abbrev fail : String → Option Reply
fail what = some (error 400 what)

module _ (digest : String → String) (challenge : String → String) (sign : Claims → String) where
  -- The refusals before the code is taken, in their order.
  unfoldable pub token_refusal : ContentLength → Bool → TokenForm → OAuth → Option Reply
  token_refusal size form_type f o =
      let p = presented f in
      elim (read_refusal size) [
        | some r ↦ some r
        | none ↦
            if not form_type
            then fail "invalid_request"
            else if not (str_eq f.grant_type "authorization_code")
            then fail "unsupported_grant_type"
            else if not (has p.client_id o.clients)
            then fail "invalid_client"
            else if not (authenticates digest p.client_id p.client_secret p.auth_method o.clients)
            then fail "invalid_client"
            else if str_eq f.code ""
            then fail "invalid_grant"
            else if not (valid_verifier f.code_verifier)
            then fail "invalid_grant"
            else none
      ]

  -- The refusals once it is taken.
  unfoldable pub code_refusal : ℕ → TokenForm → PendingCode → Option Reply
  code_refusal now f c =
      let resource = rstrip_slash f.resource in
      if ltb c.expires_at now
      then fail "invalid_grant"
      else if not (str_eq c.client_id (presented f).client_id)
      then fail "invalid_grant"
      else if not (str_eq c.redirect_uri f.redirect_uri)
      then fail "invalid_grant"
      else if str_eq resource "" || not (str_eq c.resource resource)
      then fail "invalid_target"
      else if not (verify_pkce challenge f.code_verifier c.code_challenge)
      then fail "invalid_grant"
      else none

  -- The reply to a request whose code was found or not.
  unfoldable pub token_reply : ℕ → TokenForm → ℕ → Option PendingCode → Reply
  token_reply now f ttl none = error 400 "invalid_grant"
  token_reply now f ttl (some c) = elim (code_refusal now f c) [
    | some r ↦ r
    | none ↦
        token (create_access_token sign ttl now (rstrip_slash f.resource) (presented f).client_id)
  ]

  -- The code is popped before it is tested.
  abbrev pub take_code : ℕ → TokenForm → OAuth → Option Reply → Reply × OAuth
  take_code now f o (some r) = (r, o)
  take_code now f o none = (
    token_reply now f o.token_ttl (get f.code o.pending_codes),
    record o { pending_codes = pop f.code o.pending_codes },
  )

  unfoldable pub handle_token : ContentLength → Bool → ℕ → TokenForm → OAuth → Reply × OAuth
  handle_token size form_type now f o = take_code now f o (token_refusal size form_type f o)
