-- ===== src/OAuth/Pending.antt =====
-- What the table of codes of coding_tools_mcp/server.py keeps when a code is brought.
use devmcp_runtime.Base.Dict.Laws.{put-Distinct, length-put, get-put, Every-put}
use devmcp_runtime.OAuth.{max_pending_codes}
use devmcp_runtime.Base.Dict.{get, Dict, Every, Distinct}
use devmcp_runtime.OAuth.Authorize.{
  drop_oldest, drop_expired, mint_code, PendingCode, AuthorizeForm, OAuth, pending,
}
use devmcp_runtime.Base.{
  ℕ, ◌≤◌, ◌<◌, String, ◌≡◌, refl, ◌∙◌, false, none, [], ◌∷◌, arith, ltb, leb, str_eq, if_both,
  length,
}

drop_expired-get :
    (k : String) (now : ℕ) (d : Dict PendingCode)
    → get k d ≡ none
    → get k (drop_expired now d) ≡ none
unfolding get drop_expired
drop_expired-get k now [] h = refl
drop_expired-get k now ((i, p) ∷ d) h = ground (arith, drop_expired-get k now d)

drop_oldest-get :
    (k : String) (d : Dict PendingCode) → get k d ≡ none → get k (drop_oldest d) ≡ none
unfolding get drop_oldest
drop_oldest-get k [] h = refl
drop_oldest-get k ((i, p) ∷ d) h = ground (arith, drop_oldest-get k d)

drop_expired-Distinct :
    (now : ℕ) (d : Dict PendingCode) → Distinct d → Distinct (drop_expired now d)
unfolding drop_expired
drop_expired-Distinct now [] h = tt
drop_expired-Distinct now ((i, p) ∷ d) h =
    ground (arith, drop_expired-get i now d h.0, drop_expired-Distinct now d h.1)

drop_oldest-Distinct : (d : Dict PendingCode) → Distinct d → Distinct (drop_oldest d)
unfolding drop_oldest
drop_oldest-Distinct [] h = tt
drop_oldest-Distinct ((i, p) ∷ d) h = ground (arith, drop_oldest-Distinct d h.1)

length-drop_oldest : (d : Dict PendingCode) → length (drop_oldest d) < max_pending_codes
unfolding drop_oldest
length-drop_oldest [] = omega arith
length-drop_oldest ((i, p) ∷ d) = ground (arith, length-drop_oldest d)

module _ (P : String → PendingCode → Type 0) where
  drop_expired-Every : (now : ℕ) (d : Dict PendingCode) → Every P d → Every P (drop_expired now d)
  unfolding drop_expired
  drop_expired-Every now [] h = tt
  drop_expired-Every now ((i, p) ∷ d) h =
      if_both (Every P) (ltb p.expires_at now) (drop_expired-Every now d h.1)
        (h.0, drop_expired-Every now d h.1)

  drop_oldest-Every : (d : Dict PendingCode) → Every P d → Every P (drop_oldest d)
  unfolding drop_oldest
  drop_oldest-Every [] h = tt
  drop_oldest-Every ((i, p) ∷ d) h =
      if_both (Every P) (leb max_pending_codes (length ((i, p) ∷ d))) (drop_oldest-Every d h.1) h

  -- What `mint_code` keeps of the entries.
  pub mint_code-Every :
      (now : ℕ) (k : String) (f : AuthorizeForm) (o : OAuth)
      → Every P o.pending_codes
      → P k (pending now f o)
      → Every P (mint_code now k f o).pending_codes
  unfolding mint_code
  mint_code-Every now k f o h new =
      Every-put P k (pending now f o) (drop_oldest (drop_expired now o.pending_codes))
        (drop_oldest-Every (drop_expired now o.pending_codes)
          (drop_expired-Every now o.pending_codes h))
        new

pub mint_code-Distinct :
    (now : ℕ) (k : String) (f : AuthorizeForm) (o : OAuth)
    → Distinct o.pending_codes
    → Distinct (mint_code now k f o).pending_codes
unfolding mint_code
mint_code-Distinct now k f o h =
    put-Distinct k (pending now f o) (drop_oldest (drop_expired now o.pending_codes)) (
      drop_oldest-Distinct (drop_expired now o.pending_codes)
        (drop_expired-Distinct now o.pending_codes h))

pub length-mint_code :
    (now : ℕ) (k : String) (f : AuthorizeForm) (o : OAuth)
    → length (mint_code now k f o).pending_codes ≤ max_pending_codes
unfolding mint_code
length-mint_code now k f o = ground (
  arith,
  length-put k (pending now f o) (drop_oldest (drop_expired now o.pending_codes)),
  length-drop_oldest (drop_expired now o.pending_codes),
)

-- A new code brings no other.
pub mint_code-get :
    (now : ℕ) (k j : String) (f : AuthorizeForm) (o : OAuth)
    → str_eq k j ≡ false
    → get j o.pending_codes ≡ none
    → get j (mint_code now k f o).pending_codes ≡ none
unfolding mint_code
mint_code-get now k j f o n h =
    get-put k j (pending now f o) (drop_oldest (drop_expired now o.pending_codes))
    ∙ rw n (
        drop_oldest-get j (drop_expired now o.pending_codes)
          (drop_expired-get j now o.pending_codes h))
