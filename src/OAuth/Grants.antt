-- ===== src/OAuth/Grants.antt =====
-- When a token of coding_tools_mcp/server.py is granted.
use devmcp_runtime.Base.Dict.Laws.{get-pop}
use devmcp_runtime.OAuth.Registry.{authenticates}
use devmcp_runtime.OAuth.Token.{
  token_refusal, TokenForm, token_reply, code_refusal, presented, handle_token, take_code,
}
use devmcp_runtime.OAuth.{Claims, verify_pkce, create_access_token}
use devmcp_runtime.Base.Dict.{get, Distinct, pop}
use devmcp_runtime.OAuth.Authorize.{
  no_length, malformed, negative, bytes, PendingCode, ContentLength, OAuth, token, rstrip_slash,
  read_refusal, bytes, Reply,
}
use devmcp_runtime.Base.{
  ℕ, ◌≤◌, String, ◌≡◌, refl, sym, ap, ◌∙◌, ◌≢◌, Bool, true, Option, none, some, arith, eq_iff,
  str_eq_self,
}

module _ (digest : String → String) (challenge : String → String) (sign : Claims → String) where
  -- What a token says of the request and of the code that it took.
  pub record Earned (now : ℕ) (f : TokenForm) (o : OAuth) (c : PendingCode) : Type 0 where
    pub minted : get f.code o.pending_codes ≡ some c
    pub in_time : now ≤ c.expires_at
    pub same_client : c.client_id ≡ (presented f).client_id
    pub same_redirect : c.redirect_uri ≡ f.redirect_uri
    pub same_resource : c.resource ≡ rstrip_slash f.resource
    pub proved : challenge f.code_verifier ≡ c.code_challenge
    pub authenticated :
        authenticates digest
          (presented f).client_id
          (presented f).client_secret
          (presented f).auth_method
          o.clients
        ≡ true

  token_refusal-none :
      (size : ContentLength) (form_type : Bool) (f : TokenForm) (o : OAuth)
      → token_refusal digest challenge sign size form_type f o ≡ none
      → authenticates digest
          (presented f).client_id
          (presented f).client_secret
          (presented f).auth_method
          o.clients
        ≡ true
  unfolding token_refusal
  token_refusal-none size form_type f o h = ground (arith, h)

  code_refusal_only_errors :
      (now : ℕ) (f : TokenForm) (c : PendingCode) (t : String)
      → code_refusal digest challenge sign now f c ≢ some (token t)
  unfolding code_refusal
  code_refusal_only_errors now f c t h = ground (arith, h)

  pub token_refusal_only_errors :
      (size : ContentLength) (form_type : Bool) (f : TokenForm) (o : OAuth) (t : String)
      → token_refusal digest challenge sign size form_type f o ≢ some (token t)
  unfolding token_refusal read_refusal
  token_refusal_only_errors no_length form_type f o t h = ground (arith, h)
  token_refusal_only_errors malformed form_type f o t h = ground (arith, h)
  token_refusal_only_errors negative form_type f o t h = ground (arith, h)
  token_refusal_only_errors (bytes n) form_type f o t h = ground (arith, h)

  code_refusal-none :
      (now : ℕ) (f : TokenForm) (c : PendingCode)
      → code_refusal digest challenge sign now f c ≡ none
      → (now ≤ c.expires_at)
        × (c.client_id ≡ (presented f).client_id)
        × (c.redirect_uri ≡ f.redirect_uri)
        × (c.resource ≡ rstrip_slash f.resource)
        × (challenge f.code_verifier ≡ c.code_challenge)
  unfolding code_refusal verify_pkce
  code_refusal-none now f c h = ground (
    arith,
    h,
    eq_iff c.client_id (presented f).client_id,
    eq_iff c.redirect_uri f.redirect_uri,
    eq_iff c.resource (rstrip_slash f.resource),
    eq_iff (challenge f.code_verifier) c.code_challenge,
  )

  token_reply_token :
      (now : ℕ) (f : TokenForm) (ttl : ℕ) (found : Option PendingCode) (t : String)
      → token_reply digest challenge sign now f ttl found ≡ token t
      → (c : PendingCode) × (found ≡ some c)
        × (code_refusal digest challenge sign now f c ≡ none)
        × (t ≡ create_access_token sign ttl now (rstrip_slash f.resource) (presented f).client_id)
  unfolding token_reply
  token_reply_token now f ttl none t h = absurd (ground arith)
  token_reply_token now f ttl (some c) t h = (
    c,
    refl,
    ground (arith, h, code_refusal_only_errors now f c t),
    ground (arith, h, code_refusal_only_errors now f c t),
  )

  take_code-Earned :
      (now : ℕ) (f : TokenForm) (o : OAuth) (t : String)
      → Distinct o.pending_codes
      → authenticates digest
          (presented f).client_id
          (presented f).client_secret
          (presented f).auth_method
          o.clients
        ≡ true
      → (take_code digest challenge sign now f o none).0 ≡ token t
      → (c : PendingCode) × Earned now f o c
        × (t ≡ create_access_token sign o.token_ttl now c.resource c.client_id)
        × (get f.code (pop f.code o.pending_codes) ≡ none)
  take_code-Earned now f o t d a h =
      let (c, found, passed, is_token) =
        token_reply_token now f o.token_ttl (get f.code o.pending_codes) t h in
      let (in_time, client, redirect, resource, proof) = code_refusal-none now f c passed in
      (
        c,
        record {
          minted = found;
          in_time = in_time;
          same_client = client;
          same_redirect = redirect;
          same_resource = resource;
          proved = proof;
          authenticated = a;
        },
        is_token
            ∙ ap (λ x. create_access_token sign o.token_ttl now x (presented f).client_id)
                (sym resource)
            ∙ ap (create_access_token sign o.token_ttl now c.resource) (sym client),
        get-pop f.code f.code o.pending_codes d ∙ rw (str_eq_self f.code) refl,
      )

  settled :
      (size : ContentLength) (form_type : Bool) (now : ℕ) (f : TokenForm) (o : OAuth) (t : String)
      (refusal : Option Reply)
      → token_refusal digest challenge sign size form_type f o ≡ refusal
      → (take_code digest challenge sign now f o refusal).0 ≡ token t
      → refusal ≡ none
  settled size form_type now f o t none e h = refl
  settled size form_type now f o t (some r) e h =
      absurd (token_refusal_only_errors size form_type f o t (e ∙ ap some h))

  -- A token is granted only to an authenticated client for a code that was pending under that client,
  -- redirect URI and resource, in its time and against its PKCE challenge; the token is for that
  -- resource and client, and the code is gone afterwards.
  pub handle_token-Earned :
      (size : ContentLength) (form_type : Bool) (now : ℕ) (f : TokenForm) (o : OAuth) (t : String)
      → Distinct o.pending_codes
      → (handle_token digest challenge sign size form_type now f o).0 ≡ token t
      → (c : PendingCode) × Earned now f o c
        × (t ≡ create_access_token sign o.token_ttl now c.resource c.client_id)
        × (get f.code (handle_token digest challenge sign size form_type now f o).1.pending_codes
            ≡ none)
  unfolding handle_token
  handle_token-Earned size form_type now f o t d h =
      let free =
        settled size form_type now f o t (token_refusal digest challenge sign size form_type f o)
          refl h in
      rw free (
        take_code-Earned now f o t d (token_refusal-none size form_type f o free)
          (sym (ap (λ r. (take_code digest challenge sign now f o r).0) free) ∙ h))
