-- ===== src/Session/Contexts/Leases.antt =====
-- How many leases a context has: what `retain` and `release` count, and that no other method
-- changes it.
pub mod Methods
use devmcp_runtime.Base.{
  ℕ, Option, String, List, ◌≡◌, some, arith, eq_iff, zero, suc, ◌+◌, ◌-◌, ◌*◌, ◌/◌, ◌%◌, ◌≤◌, ◌<◌,
  min, max, refl, sym, ap, ◌∙◌, subst, fun_ext, ◌≢◌, ◌↔◌, ◌⊎◌, inl, inr, Bool, true, false, not,
  ◌&&◌, ◌||◌, none, [], ◌∷◌, ◌++◌, map, ltb, leb, ◌==◌, str_eq, if◌then◌else◌, ltb→lt, lt→ltb,
  leb→le, str_eq_self, str_eq_ne, Bool-cases, Option-cases, if_both, length, take, drop, any, all,
  keep_if, All, length-append, take-append-drop, length-take, length-drop, length-keep_if,
  Exception, tool_failure, runtime_error, value_error, file_exists_error, os_error, Result, ok,
  raised, Exec, ◌>>=◌, ◌>>◌, guard, pure, raise, continue, bind, continue_state, bind_state, subst₂,
  sequence_ok,
}
use devmcp_runtime.Base.Dict.{get, has}
use devmcp_runtime.Base.Dict.Laws.{get-put}
use devmcp_runtime.Session.Contexts.Laws.{swept, get-held, contexts-notify_expired, get-prune}
use devmcp_runtime.Session.Contexts.Invariant.{Inv, get-keyed}
use devmcp_runtime.Session.Contexts.{
  Context, Ref, Registry, stale, write, prune, notify_expired, held,
}

abbrev pub leases_of : Option Context → ℕ
leases_of none = 0
leases_of (some c) = c.leases

-- The leases of the context of that name; 0 where no context has it.
unfoldable pub lease_count : String → Registry → ℕ
lease_count k s = leases_of (get k s.contexts)

leases_of-swept :
    (ttl now : ℕ) (o : Option Context) → leases_of (swept (stale ttl now) o) ≡ leases_of o
unfolding stale
leases_of-swept ttl now o = ground arith

-- A sweep drops no lease: what it pops has none.
pub lease_count-prune :
    (now : ℕ) (k : String) (s : Registry) → Inv s → lease_count k (prune now s) ≡ lease_count k s
unfolding lease_count
lease_count-prune now k s h =
    rw (get-prune now k s h.distinct) (leases_of-swept s.ttl_seconds now (get k s.contexts))

pub lease_count-notify_expired :
    (l : List Context) (k : String) (s : Registry)
    → lease_count k (notify_expired l s) ≡ lease_count k s
unfolding lease_count
lease_count-notify_expired l k s = rw contexts-notify_expired

pub lease_count-write :
    (c : Context) (k : String) (s : Registry)
    → lease_count k (write c s) ≡ (if str_eq c.context_id k then c.leases else lease_count k s)
unfolding lease_count write
lease_count-write c k s = ground (arith, get-put c.context_id k c s.contexts)

-- A write to a registered context that leaves its name and its leases alone.
pub lease_count-write_found :
    (j : String) (c c' : Context) (k : String) (s : Registry)
    → Inv s
    → get j s.contexts ≡ some c
    → c'.context_id ≡ c.context_id
    → c'.leases ≡ c.leases
    → lease_count k (write c' s) ≡ lease_count k s
unfolding lease_count
lease_count-write_found j c c' k s h e name leases =
    ground (arith, lease_count-write c' k s, get-keyed j c s h e, eq_iff c'.context_id k)

pub lease_count-write-held :
    (r : Ref) (c c' : Context) (k : String) (s : Registry)
    → Inv s
    → held r s ≡ some c
    → c'.context_id ≡ c.context_id
    → c'.leases ≡ c.leases
    → lease_count k (write c' s) ≡ lease_count k s
lease_count-write-held r c c' k s h e name leases =
    lease_count-write_found r.context_id c c' k s h (get-held r s c e) name leases

pub lease_count-found :
    (k : String) (c : Context) (s : Registry)
    → get k s.contexts ≡ some c
    → lease_count k s ≡ c.leases
unfolding lease_count
lease_count-found k c s e = rw e

pub lease_count-missing :
    (k : String) (s : Registry) → get k s.contexts ≡ none → lease_count k s ≡ 0
unfolding lease_count
lease_count-missing k s e = rw e

pub unused_lease_count :
    (k : String) (s : Registry) → has k s.contexts ≡ false → lease_count k s ≡ 0
unfolding lease_count
unused_lease_count k s e = ground (arith, e)
