-- ===== src/Session/Contexts/Eviction.antt =====
-- Which context `create` evicts: one with no lease, the least recently seen of those.
use devmcp_runtime.Base.{
  ◌≤◌, ◌<◌, String, ◌≡◌, ◌≢◌, ◌⊎◌, inl, Option, none, some, [], ◌∷◌, arith, eq_iff, ◌==◌,
  if◌then◌else◌,
}
use devmcp_runtime.Base.Dict.{Dict, get, Distinct}
use devmcp_runtime.Session.Contexts.{Context}
use devmcp_runtime.Session.Contexts.Creation.{older, oldest_from}

-- The search returns what it began with or an entry of the dict that has no lease.
pub oldest_from_cases :
    (best : Option (String × Context)) (d : Dict Context) (k : String) (c : Context)
    → Distinct d
    → oldest_from best d ≡ some (k, c)
    → (best ≡ some (k, c)) ⊎ ((get k d ≡ some c) × (c.leases ≡ 0))
unfolding oldest_from get
oldest_from_cases best [] k c h e = inl e
oldest_from_cases none ((i, x) ∷ d) k c h e =
    ground
      (arith, eq_iff i k, oldest_from_cases (if x.leases == 0 then some (i, x) else none) d k c h.1)
oldest_from_cases (some (j, b)) ((i, x) ∷ d) k c h e = ground (
  arith,
  eq_iff i k,
  oldest_from_cases (if x.leases == 0 then older (some (j, b)) i x else some (j, b)) d k c h.1,
)

-- The one returned was seen no later than the one begun with.
pub oldest_from-le :
    (j : String) (b : Context) (d : Dict Context) (k : String) (c : Context)
    → oldest_from (some (j, b)) d ≡ some (k, c)
    → c.last_seen ≤ b.last_seen
unfolding oldest_from
oldest_from-le j b [] k c e = ground arith
oldest_from-le j b ((i, x) ∷ d) k c e =
    ground (arith, oldest_from-le j b d k c, oldest_from-le i x d k c)

-- No context of the dict that has no lease was seen before the one returned.
pub oldest_from-least :
    (best : Option (String × Context)) (d : Dict Context) (k : String) (c : Context) (j : String)
    (x : Context)
    → oldest_from best d ≡ some (k, c)
    → get j d ≡ some x
    → x.leases ≡ 0
    → c.last_seen ≤ x.last_seen
unfolding oldest_from get
oldest_from-least best [] k c j x e found free = absurd (ground arith)
oldest_from-least none ((i, y) ∷ d) k c j x e found free = ground (
  arith,
  eq_iff i j,
  oldest_from-le i y d k c,
  oldest_from-least (if y.leases == 0 then some (i, y) else none) d k c j x,
)
oldest_from-least (some (m, b)) ((i, y) ∷ d) k c j x e found free = ground (
  arith,
  eq_iff i j,
  oldest_from-le i y d k c,
  oldest_from-le m b d k c,
  oldest_from-least (if y.leases == 0 then older (some (m, b)) i y else some (m, b)) d k c j x,
)

oldest_from-ne-none :
    (best : String × Context) (d : Dict Context) → oldest_from (some best) d ≢ none
unfolding oldest_from
oldest_from-ne-none best [] = ground arith
oldest_from-ne-none (j, b) ((i, x) ∷ d) =
    ground (arith, oldest_from-ne-none (j, b) d, oldest_from-ne-none (i, x) d)

-- Where nothing is returned, every context has a lease.
pub oldest_from-none :
    (d : Dict Context) (j : String) (x : Context)
    → oldest_from none d ≡ none
    → get j d ≡ some x
    → 0 < x.leases
unfolding oldest_from get
oldest_from-none [] j x e found = absurd (ground arith)
oldest_from-none ((i, y) ∷ d) j x e found =
    ground (arith, eq_iff i j, oldest_from-ne-none (i, y) d, oldest_from-none d j x)
