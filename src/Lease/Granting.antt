-- ===== src/Lease/Granting.antt =====
-- What `acquire_writer_leases` of coding_tools_mcp/writer_lease.py grants.
use devmcp_runtime.Lease.Exclusion.{Held}
use devmcp_runtime.Base.Dict.{put, get}
use devmcp_runtime.Lease.Acquire.{Request}
use devmcp_runtime.Lease.{WriteOutcome, Lease, Leases, lease, too_large}
use devmcp_runtime.Base.{
  ◌+◌, String, ◌≡◌, ◌⊎◌, Bool, Option, List, All, Exception, Result, ok, raised, os_error,
}

module _ (lease_path : String → String) (fits : Lease → Bool)
    (system : String → Lease → WriteOutcome) where
  -- The caller's running lease stands at the path.
  abbrev pub Granted : Request → String → Leases → Type 0
  Granted q path files = Held q.owner (q.now + q.ttl_seconds) path files

  -- What `write_json` raises.
  abbrev pub WriteFailure : Exception → Type 0
  WriteFailure e = (e ≡ os_error) ⊎ (e ≡ too_large)

  -- What one write gives.
  abbrev OneWrite : String → Lease → Leases → Result (Unit {0}) × Leases → Type 0
  OneWrite path l files w =
      (w ≡ (ok tt, put path (lease l) files))
      ⊎ ((e : Exception) × (w.0 ≡ raised e)
          × WriteFailure e
          × ((w.1 ≡ files) ⊎ (w.1 ≡ put path (lease l) files)))

  -- All branches are granted, or a write was refused.
  abbrev Ended : Request → List (String × Option Lease) → Result (List Lease) × Leases → Type 0
  Ended q existing r =
      ((ls : List Lease) × (r.0 ≡ ok ls) × All (λ p. Granted q (lease_path p.0) r.1) existing)
      ⊎ ((e : Exception) × (r.0 ≡ raised e) × WriteFailure e)

  -- What is granted stays so, and each file is as it was or a lease of the caller.
  pub record Progress (q : Request) (files files' : Leases) : Type 0 where
    pub keeps : (path : String) → Granted q path files → Granted q path files'
    pub either : (path : String) → (get path files' ≡ get path files) ⊎ Granted q path files'

  -- What is true of the loop, by the way its first write ends.
  abbrev Loop :
      Request → List (String × Option Lease) → Leases → Result (List Lease) × Leases → Type 0
  Loop q existing files r = Ended q existing r × Progress q files r.1

  -- A call returns with a lease for every branch; or it raises and writes nothing; or a write was
  -- refused, and each file is as it was or a running lease of the caller.
  abbrev pub Outcome : Request → List String → Leases → Result (List Lease) × Leases → Type 0
  Outcome q branches files r =
      ((ls : List Lease) × (r.0 ≡ ok ls) × All (λ b. Granted q (lease_path b) r.1) branches)
      ⊎ (((e : Exception) × (r ≡ (raised e, files)))
          ⊎ ((e : Exception) × (r.0 ≡ raised e)
              × WriteFailure e
              × ((path : String) → (get path r.1 ≡ get path files) ⊎ Granted q path r.1)))
