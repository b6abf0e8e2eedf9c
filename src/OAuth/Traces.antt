-- ===== src/OAuth/Traces.antt =====
-- Sequences of requests to the OAuth handlers of coding_tools_mcp/server.py.
use devmcp_runtime.Base.Dict.Laws.{pop-Distinct, get-pop}
use devmcp_runtime.OAuth.Grants.{token_refusal_only_errors}
use devmcp_runtime.OAuth.Pending.{mint_code-get, mint_code-Distinct}
use devmcp_runtime.Base.Dict.{has, Distinct, get}
use devmcp_runtime.OAuth.Registry.{Metadata, register_client}
use devmcp_runtime.OAuth.Token.{token_reply, TokenForm, handle_token, token_refusal, take_code}
use devmcp_runtime.OAuth.{Uri, Claims}
use devmcp_runtime.OAuth.Authorize.{
  ContentLength, AuthorizeForm, authorize_post, OAuth, Reply, mint_or_refuse, error, PendingCode,
  token, authorize_refusal, redirected, login_page,
}
use devmcp_runtime.Base.{
  ℕ, ◌+◌, ◌≤◌, String, ◌≡◌, refl, ◌≢◌, Bool, false, Option, none, some, List, [], ◌∷◌, arith,
  eq_iff, str_eq, if◌then◌else◌, Result,
}

pub data OAuthOp : Type 0 where
  authorize_op : ContentLength → Bool → ℕ → String → AuthorizeForm → OAuthOp
  token_op : ContentLength → Bool → ℕ → TokenForm → OAuthOp
  register_op : Metadata → String → String → OAuthOp

module _ (urlsplit : String → Result Uri) (digest : String → String) (challenge : String → String)
    (sign : Claims → String) where
  unfoldable pub register_in : Metadata → String → String → OAuth → OAuth
  register_in m client_id secret o = record o {
    clients = (register_client urlsplit digest m client_id secret o.clients).1;
  }

  abbrev pub serve : OAuthOp → OAuth → OAuth
  serve (authorize_op size form_type now new_code f) o =
      (authorize_post size form_type now new_code f o).1
  serve (token_op size form_type now f) o =
      (handle_token digest challenge sign size form_type now f o).1
  serve (register_op m client_id secret) o = register_in m client_id secret o

  abbrev pub run : List OAuthOp → OAuth → OAuth
  run [] o = o
  run (op ∷ ops) o = run ops (serve op o)

  -- One where the authorization of a request brings that code.
  abbrev is_minted : String → Reply → ℕ
  is_minted k (error status what) = 0
  is_minted k login_page = 0
  is_minted k (redirected uri new_code) = if str_eq new_code k then 1 else 0
  is_minted k (token t) = 0

  abbrev is_token : Reply → ℕ
  is_token (error status what) = 0
  is_token login_page = 0
  is_token (redirected uri new_code) = 0
  is_token (token t) = 1

  abbrev mints : String → OAuthOp → OAuth → ℕ
  mints k (authorize_op size form_type now new_code f) o =
      is_minted k (authorize_post size form_type now new_code f o).0
  mints k (token_op size form_type now f) o = 0
  mints k (register_op m client_id secret) o = 0

  abbrev grants : String → OAuthOp → OAuth → ℕ
  grants k (authorize_op size form_type now new_code f) o = 0
  grants k (token_op size form_type now f) o =
      if str_eq f.code k
      then is_token (handle_token digest challenge sign size form_type now f o).0
      else 0
  grants k (register_op m client_id secret) o = 0

  -- How often a code is brought, and how often a token is granted for it.
  abbrev pub minted : String → List OAuthOp → OAuth → ℕ
  minted k [] o = 0
  minted k (op ∷ ops) o = mints k op o + minted k ops (serve op o)

  abbrev pub granted : String → List OAuthOp → OAuth → ℕ
  granted k [] o = 0
  granted k (op ∷ ops) o = grants k op o + granted k ops (serve op o)

  abbrev pends : String → OAuth → ℕ
  pends k o = if has k o.pending_codes then 1 else 0

  serve-Distinct :
      (op : OAuthOp) (o : OAuth) → Distinct o.pending_codes → Distinct (serve op o).pending_codes
  unfolding authorize_post handle_token register_in
  serve-Distinct (authorize_op size form_type now new_code f) o h =
      minted_or_refused (authorize_refusal size form_type f o)
    where
      minted_or_refused :
          (r : Option Reply) → Distinct (mint_or_refuse now new_code f o r).1.pending_codes
      minted_or_refused none = mint_code-Distinct now new_code f o h
      minted_or_refused (some r) = h
  serve-Distinct (token_op size form_type now f) o h =
      taken_or_refused (token_refusal digest challenge sign size form_type f o)
    where
      taken_or_refused :
          (r : Option Reply) → Distinct (take_code digest challenge sign now f o r).1.pending_codes
      taken_or_refused none = pop-Distinct f.code o.pending_codes h
      taken_or_refused (some r) = h
  serve-Distinct (register_op m client_id secret) o h = h

  mint_or_refuse_counts :
      (k : String) (now : ℕ) (new_code : String) (f : AuthorizeForm) (o : OAuth) (r : Option Reply)
      → pends k (mint_or_refuse now new_code f o r).1
        ≤ is_minted k (mint_or_refuse now new_code f o r).0 + pends k o
  mint_or_refuse_counts k now new_code f o (some r) = omega arith
  mint_or_refuse_counts k now new_code f o none = ground (arith, mint_code-get now new_code k f o)

  is_token_reply :
      (now : ℕ) (f : TokenForm) (ttl : ℕ) (found : Option PendingCode)
      → is_token (token_reply digest challenge sign now f ttl found)
        ≤ (elim found [ none ↦ 0 | some c ↦ 1 ])
  unfolding token_reply
  is_token_reply now f ttl none = omega arith
  is_token_reply now f ttl (some c) =
      is_token_small (token_reply digest challenge sign now f ttl (some c))
    where
      is_token_small : (r : Reply) → is_token r ≤ 1
      is_token_small (error status what) = omega arith
      is_token_small login_page = omega arith
      is_token_small (redirected uri new_code) = omega arith
      is_token_small (token t) = omega arith

  take_code_counts :
      (k : String) (now : ℕ) (f : TokenForm) (o : OAuth) (r : Option Reply)
      → Distinct o.pending_codes
      → ((t : String) → r ≢ some (token t))
      → (if str_eq f.code k then is_token (take_code digest challenge sign now f o r).0 else 0)
          + pends k (take_code digest challenge sign now f o r).1
        ≤ pends k o
  take_code_counts k now f o none h no_token = ground (
    arith,
    is_token_reply now f o.token_ttl (get f.code o.pending_codes),
    get-pop f.code k o.pending_codes h,
    eq_iff f.code k,
  )
  take_code_counts k now f o (some (error status what)) h no_token = ground arith
  take_code_counts k now f o (some login_page) h no_token = ground arith
  take_code_counts k now f o (some (redirected uri c)) h no_token = ground arith
  take_code_counts k now f o (some (token t)) h no_token = absurd (no_token t refl)

  serve_counts :
      (k : String) (op : OAuthOp) (o : OAuth)
      → Distinct o.pending_codes
      → grants k op o + pends k (serve op o) ≤ mints k op o + pends k o
  unfolding authorize_post handle_token register_in
  serve_counts k (authorize_op size form_type now new_code f) o h =
      omega (arith, mint_or_refuse_counts k now new_code f o (authorize_refusal size form_type f o))
  serve_counts k (token_op size form_type now f) o h = omega (
    arith,
    take_code_counts k now f o (token_refusal digest challenge sign size form_type f o) h
        (token_refusal_only_errors digest challenge sign size form_type f o),
  )
  serve_counts k (register_op m client_id secret) o h = omega arith

  run_counts :
      (k : String) (ops : List OAuthOp) (o : OAuth)
      → Distinct o.pending_codes
      → granted k ops o + pends k (run ops o) ≤ minted k ops o + pends k o
  run_counts k [] o h = omega arith
  run_counts k (op ∷ ops) o h =
      omega (arith, serve_counts k op o h, run_counts k ops (serve op o) (serve-Distinct op o h))

  -- In any sequence of requests a code that is not pending at the start is exchanged for a token at
  -- most as often as an authorization brought it: a code that is brought once serves once.
  pub granted_le_minted :
      (k : String) (ops : List OAuthOp) (o : OAuth)
      → Distinct o.pending_codes
      → has k o.pending_codes ≡ false
      → granted k ops o ≤ minted k ops o
  granted_le_minted k ops o h new = ground (arith, run_counts k ops o h, new)
