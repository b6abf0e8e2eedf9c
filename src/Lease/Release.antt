-- ===== src/Lease/Release.antt =====
-- `release_writer_lease` and `release_owner_leases` of coding_tools_mcp/writer_lease.py.
use Prim.Native.Nat.{Ordering}
use Prim.Native.String.{compare}
use devmcp_runtime.Base.Dict.{pop}
use devmcp_runtime.Lease.{
  Lease, Stored, Leases, read_json, lease, owned_by, refused, active, lease_conflict,
}
use devmcp_runtime.Base.{
  ℕ, String, Bool, true, false, not, ◌&&◌, Option, none, some, List, [], ◌∷◌, ◌++◌, str_eq,
  if◌then◌else◌, tool_failure, Result, ok, raised, Exec, ◌>>=◌,
}

-- `logical_task is None or record.get("logical_task") == logical_task`
unfoldable pub task_fits : Lease → Option String → Bool
task_fits l none = true
task_fits l (some task) = elim l.logical_task [ none ↦ false | some t ↦ str_eq t task ]

unfoldable pub release_writer_lease :
    (String → String) → String → String → Option String → ℕ → Exec Leases Bool
release_writer_lease lease_path branch owner logical_task now files =
    let path = lease_path branch in
    elim (read_json path files) [
      | raised e ↦ (raised e, files)
      | ok none ↦ (ok false, files)
      | ok (some l) ↦
          if active l now && not (owned_by l owner && task_fits l logical_task)
          then (raised lease_conflict, files)
          else (ok true, pop path files)
    ]

-- What the sweep does with one file: whether it goes, or the refusal of `read_json`.
unfoldable pub releases : String → Option String → Stored → Result Bool
releases owner logical_task (lease l) = ok (owned_by l owner && task_fits l logical_task)
releases owner logical_task (refused code) = raised (tool_failure code "runtime" false)

abbrev branch_name : Lease → List String
branch_name l = elim l.branch [ none ↦ [] | some b ↦ if str_eq b "" then [] else b ∷ [] ]

abbrev branch_of : Stored → List String
branch_of (lease l) = branch_name l
branch_of (refused code) = []

-- The loop over the files, in the order that the directory gives: the branches of the leases that
-- it removes, and the files that stay. Where a file cannot be read it stops, and the rest stays.
unfoldable pub sweep_owner : String → Option String → Leases → Result (List String) × Leases
sweep_owner owner logical_task [] = (ok [], [])
sweep_owner owner logical_task ((path, stored) ∷ files) =
    let (released, kept) = sweep_owner owner logical_task files in
    elim (releases owner logical_task stored) [
      | raised e ↦ (raised e, (path, stored) ∷ files)
      | ok true ↦ (released >>= λ bs. ok (branch_of stored ++ bs), kept)
      | ok false ↦ (released, (path, stored) ∷ kept)
    ]

-- `sorted(released)`, which keeps what occurs twice.
abbrev insert_sorted : String → List String → List String
insert_sorted b [] = b ∷ []
insert_sorted b (x ∷ xs) =
    let rest = insert_sorted b xs in
    elim (compare b x) [
      | Ordering.gt ↦ x ∷ rest
      | Ordering.lt ↦ b ∷ x ∷ xs
      | Ordering.eq ↦ b ∷ x ∷ xs
    ]

unfoldable pub sorted : List String → List String
sorted [] = []
sorted (b ∷ bs) = insert_sorted b (sorted bs)

unfoldable pub release_owner_leases :
    String → Option String → Leases → Result (List String) × Leases
release_owner_leases owner logical_task files =
    let (released, kept) = sweep_owner owner logical_task files in
    (released >>= λ bs. ok (sorted bs), kept)
