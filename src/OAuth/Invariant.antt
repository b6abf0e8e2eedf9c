-- ===== src/OAuth/Invariant.antt =====
-- What the requests to the OAuth handlers of coding_tools_mcp/server.py keep true.
use devmcp_runtime.OAuth.Pending.{mint_code-Distinct, length-mint_code, mint_code-Every}
use devmcp_runtime.Base.Dict.Laws.{length-put, pop-Distinct, length-pop, Every-pop}
use devmcp_runtime.OAuth.Traces.{
  OAuthOp, run, serve, register_in, authorize_op, token_op, register_op,
}
use devmcp_runtime.OAuth.Token.{TokenForm, handle_token, take_code, token_refusal}
use devmcp_runtime.OAuth.Registry.{add_client, Metadata, register_client, check_metadata}
use devmcp_runtime.Base.Dict.{Distinct, Every}
use devmcp_runtime.OAuth.{
  Uri, Claims, valid_pkce_challenge, max_pending_codes, Clients, max_registered_clients,
}
use devmcp_runtime.OAuth.Authorize.{
  client_refusal, authorize_refusal, PendingCode, OAuth, AuthorizeForm, ContentLength,
  authorize_post, mint_code, pending, Reply, rstrip_slash, mint_or_refuse,
}
use devmcp_runtime.Base.{
  ℕ, ◌≤◌, String, ◌≡◌, refl, subst, Bool, true, Option, none, some, List, [], ◌∷◌, arith, eq_iff,
  str_eq, if◌then◌else◌, length, Result, ok, raised, continue,
}

-- An entry of the table of codes of the server at that URL.
abbrev pub Entitled : String → String → PendingCode → Type 0
Entitled url k p = (p.resource ≡ url) × (valid_pkce_challenge p.code_challenge ≡ true)

pub record Bounded (url : String) (o : OAuth) : Type 0 where
  pub same_server : o.base_url ≡ url
  pub distinct_codes : Distinct o.pending_codes
  pub few_codes : length o.pending_codes ≤ max_pending_codes
  pub few_clients : length o.clients ≤ max_registered_clients
  pub entitled : Every (Entitled url) o.pending_codes

client_refusal-Entitled :
    (now : ℕ) (k : String) (f : AuthorizeForm) (o : OAuth)
    → client_refusal f o ≡ none
    → Entitled o.base_url k (pending now f o)
unfolding client_refusal
client_refusal-Entitled now k f o h = ground (arith, h, eq_iff (rstrip_slash f.resource) o.base_url)

authorize_refusal-client :
    (size : ContentLength) (form_type : Bool) (f : AuthorizeForm) (o : OAuth)
    → authorize_refusal size form_type f o ≡ none
    → client_refusal f o ≡ none
unfolding authorize_refusal
authorize_refusal-client size form_type f o h = ground (arith, h)

module _ (urlsplit : String → Result Uri) (digest : String → String) where
  add_client-few :
      (m : Metadata) (client_id secret : String) (r : List String × String) (clients : Clients)
      → length clients ≤ max_registered_clients
      → length (add_client urlsplit digest m client_id secret r clients).1 ≤ max_registered_clients
  unfolding add_client
  add_client-few m client_id secret (redirects, method) clients h = ground (
    arith,
    length-put client_id
        record {
          client_id = client_id;
          redirect_uris = redirects;
          token_endpoint_auth_method = method;
          client_name = m.client_name;
          secret_digest = if str_eq method "none" then none else some (digest secret);
        }
        clients,
  )

  checked-few :
      (m : Metadata) (client_id secret : String) (r : Result (List String × String))
      (clients : Clients)
      → length clients ≤ max_registered_clients
      → length (continue r (add_client urlsplit digest m client_id secret) clients).1
        ≤ max_registered_clients
  checked-few m client_id secret (ok r) clients h = add_client-few m client_id secret r clients h
  checked-few m client_id secret (raised e) clients h = h

module _ (urlsplit : String → Result Uri) (digest : String → String) (challenge : String → String)
    (sign : Claims → String) where
  minted-Bounded :
      (url : String) (now : ℕ) (k : String) (f : AuthorizeForm) (o : OAuth) (r : Option Reply)
      → (r ≡ none → client_refusal f o ≡ none)
      → Bounded url o
      → Bounded url (mint_or_refuse now k f o r).1
  unfolding mint_code
  minted-Bounded url now k f o (some r) free i = i
  minted-Bounded url now k f o none free i = record {
    same_server = i.same_server;
    distinct_codes = mint_code-Distinct now k f o i.distinct_codes;
    few_codes = length-mint_code now k f o;
    few_clients = i.few_clients;
    entitled = mint_code-Every (Entitled url) now k f o i.entitled (
        subst (λ u. Entitled u k (pending now f o)) i.same_server
          (client_refusal-Entitled now k f o (free refl)));
  }

  taken-Bounded :
      (url : String) (now : ℕ) (f : TokenForm) (o : OAuth) (r : Option Reply)
      → Bounded url o
      → Bounded url (take_code digest challenge sign now f o r).1
  taken-Bounded url now f o (some r) i = i
  taken-Bounded url now f o none i = record {
    same_server = i.same_server;
    distinct_codes = pop-Distinct f.code o.pending_codes i.distinct_codes;
    few_codes = ground (arith, length-pop f.code o.pending_codes, i.few_codes);
    few_clients = i.few_clients;
    entitled = Every-pop (Entitled url) f.code o.pending_codes i.entitled;
  }

  serve-Bounded :
      (url : String) (op : OAuthOp) (o : OAuth)
      → Bounded url o
      → Bounded url (serve urlsplit digest challenge sign op o)
  unfolding authorize_post handle_token register_in register_client
  serve-Bounded url (authorize_op size form_type now k f) o i =
      minted-Bounded url now k f o (authorize_refusal size form_type f o)
        (authorize_refusal-client size form_type f o) i
  serve-Bounded url (token_op size form_type now f) o i =
      taken-Bounded url now f o (token_refusal digest challenge sign size form_type f o) i
  serve-Bounded url (register_op m client_id secret) o i = record {
    same_server = i.same_server;
    distinct_codes = i.distinct_codes;
    few_codes = i.few_codes;
    few_clients =
        checked-few urlsplit digest m client_id secret (check_metadata urlsplit digest m) o.clients
          i.few_clients;
    entitled = i.entitled;
  }

  -- Every sequence of authorizations, exchanges and registrations keeps at most 256 pending codes and
  -- 1024 clients; each pending code is bound to the URL of the server and to a well-formed PKCE
  -- challenge.
  pub run-Bounded :
      (url : String) (ops : List OAuthOp) (o : OAuth)
      → Bounded url o
      → Bounded url (run urlsplit digest challenge sign ops o)
  run-Bounded url [] o i = i
  run-Bounded url (op ∷ ops) o i =
      run-Bounded url ops (serve urlsplit digest challenge sign op o) (serve-Bounded url op o i)
