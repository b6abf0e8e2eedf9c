-- ===== src/Lease/Exclusion.antt =====
-- Mutual exclusion of coding_tools_mcp/writer_lease.py: while a lease runs, calls in the name of
-- other owners leave it as it is.
use devmcp_runtime.Lease.Release.{sweep_owner, release_writer_lease, release_owner_leases, releases}
use devmcp_runtime.Base.Dict.Laws.{get-put}
use devmcp_runtime.Lease.Acquire.{
  write_json, read_all, write_all, Request, any_conflict, conflicting, new_lease,
  acquire_writer_leases, acquire_locked, unique_branches, check_request, acquire_read,
}
use devmcp_runtime.Base.Dict.{get, pop, put}
use devmcp_runtime.Lease.{WriteOutcome, Lease, owned_by, active, Stored, Leases, read_json, lease}
use devmcp_runtime.Base.{
  ℕ, ◌<◌, String, ◌≡◌, refl, ap, ◌∙◌, subst, inl, inr, Bool, true, false, ◌||◌, Option, some, List,
  [], ◌∷◌, arith, eq_iff, str_eq, lt→ltb, Bool-cases, All, Result, ok, raised, ◌>>=◌, pure, bind,
  continue_state, bind_state, sequence_ok,
}

-- The file at a path is a lease of the owner that runs until the time.
abbrev pub Held : String → ℕ → String → Leases → Type 0
Held owner until path files =
    (l : Lease) × (get path files ≡ some (lease l))
    × (l.owner ≡ some owner)
    × (l.expires_at_epoch ≡ some until)

pub get-put_ne :
    (k j : String) (v : Stored) (files : Leases)
    → str_eq k j ≡ false
    → get j (put k v files) ≡ get j files
get-put_ne k j v files e = ground (arith, get-put k j v files)

pub get-pop_ne :
    (k j : String) (files : Leases) → str_eq k j ≡ false → get j (pop k files) ≡ get j files
unfolding get pop
get-pop_ne k j [] e = refl
get-pop_ne k j ((i, w) ∷ files) e =
    ground (arith, eq_iff i k, eq_iff i j, eq_iff k j, get-pop_ne k j files e)

or_false : (a b : Bool) → (a || b) ≡ false → (a ≡ false) × (b ≡ false)
or_false a b e = ground arith

-- A running lease is not the property of another.
pub Held-active :
    (l : Lease) (owner : String) (until now : ℕ)
    → l.expires_at_epoch ≡ some until
    → now < until
    → active l now ≡ true
unfolding active
Held-active l owner until now e h = rw (e, lt→ltb now until h)

pub Held-owned_by :
    (l : Lease) (owner other : String)
    → l.owner ≡ some owner
    → str_eq owner other ≡ false
    → owned_by l other ≡ false
unfolding owned_by
Held-owned_by l owner other e h = rw (e, h)

module _ (lease_path : String → String) (fits : Lease → Bool)
    (system : String → Lease → WriteOutcome) where
  -- A write leaves the other paths as they are.
  pub write_json_ne :
      (b path : String) (l : Lease) (files : Leases)
      → str_eq (lease_path b) path ≡ false
      → get path (write_json lease_path fits system (lease_path b) l files).1 ≡ get path files
  unfolding write_json
  write_json_ne b path l files e = ground (arith, get-put_ne (lease_path b) path (lease l) files e)

  -- The branches whose files are not at the path.
  abbrev pub Apart : String → List (String × Option Lease) → Type 0
  Apart path existing = All (λ p. str_eq (lease_path p.0) path ≡ false) existing

  pub write_all_ne :
      (q : Request) (path : String) (v : Option Stored) (existing : List (String × Option Lease))
      (files : Leases)
      → get path files ≡ v
      → Apart path existing
      → get path (write_all lease_path fits system q existing files).1 ≡ v
  unfolding write_all
  write_all_ne q path v [] files e h = e
  write_all_ne q path v ((b, previous) ∷ rest) files e h =
      bind_state (λ s. get path s ≡ v)
        (write_json lease_path fits system (lease_path b)
          (new_lease lease_path fits system q b previous))
        (λ _.
          bind (write_all lease_path fits system q rest)
            (λ ls. pure (new_lease lease_path fits system q b previous ∷ ls)))
        files (write_json_ne b path (new_lease lease_path fits system q b previous) files h.0 ∙ e)
        (λ u eu.
          bind_state (λ s. get path s ≡ v) (write_all lease_path fits system q rest)
            (λ ls. pure (new_lease lease_path fits system q b previous ∷ ls)) _
            (write_all_ne q path v rest _
              (write_json_ne b path (new_lease lease_path fits system q b previous) files h.0 ∙ e)
              h.1)
            (λ ls el.
              write_all_ne q path v rest _
                (write_json_ne b path (new_lease lease_path fits system q b previous) files h.0 ∙ e)
                h.1))

  -- A branch without a conflict has another file than a running lease of another.
  pub conflicting_ne :
      (q : Request) (path : String) (l : Lease) (b : String) (v : Option Lease) (files : Leases)
      → get path files ≡ some (lease l)
      → active l q.now ≡ true
      → owned_by l q.owner ≡ false
      → read_json (lease_path b) files ≡ ok v
      → conflicting lease_path fits system q v ≡ false
      → str_eq (lease_path b) path ≡ false
  unfolding read_json conflicting
  conflicting_ne q path l b v files e a o r c = ground (arith, eq_iff (lease_path b) path)

  pub any_conflict-Apart :
      (q : Request) (path : String) (l : Lease) (branches : List String)
      (existing : List (String × Option Lease)) (files : Leases)
      → get path files ≡ some (lease l)
      → active l q.now ≡ true
      → owned_by l q.owner ≡ false
      → read_all lease_path fits system branches files ≡ ok existing
      → any_conflict lease_path fits system q existing ≡ false
      → Apart path existing
  unfolding read_all any_conflict
  any_conflict-Apart q path l [] existing files e a o r c =
      subst (λ x. elim x [ raised u ↦ Unit | ok y ↦ Apart path y ]) r tt
  any_conflict-Apart q path l (b ∷ bs) existing files e a o r c =
      let (v, ev, r₁) =
        sequence_ok (λ v. read_all lease_path fits system bs files >>= λ rest. ok ((b, v) ∷ rest))
          (read_json (lease_path b) files) r in
      let (rest, er, r₂) =
        sequence_ok (λ rest. ok ((b, v) ∷ rest)) (read_all lease_path fits system bs files) r₁ in
      let same = ap (λ x. elim x [ raised u ↦ existing | ok y ↦ y ]) r₂ in
      let free =
        or_false (conflicting lease_path fits system q v)
          (any_conflict lease_path fits system q rest)
          (ap (any_conflict lease_path fits system q) same ∙ c) in
      subst (Apart path) same (
        conflicting_ne q path l b v files e a o ev free.0,
        any_conflict-Apart q path l bs rest files e a o er free.1,
      )

  acquire_read-keeps :
      (q : Request) (path : String) (l : Lease) (branches : List String) (files : Leases)
      (r : Result (List (String × Option Lease)))
      → get path files ≡ some (lease l)
      → active l q.now ≡ true
      → owned_by l q.owner ≡ false
      → read_all lease_path fits system branches files ≡ r
      → get path (acquire_read lease_path fits system q r files).1 ≡ some (lease l)
  acquire_read-keeps q path l branches files (raised x) e a o r = e
  acquire_read-keeps q path l branches files (ok existing) e a o r =
      elim (Bool-cases (any_conflict lease_path fits system q existing)) [
        | inl c ↦ rw c e
        | inr c ↦ rw c (
            write_all_ne q path (some (lease l)) existing files e
              (any_conflict-Apart q path l branches existing files e a o r c))
      ]

  -- What another owner's acquisition leaves of a lease that runs.
  pub acquire_writer_leases-keeps :
      (path : String) (l : Lease) (q : Request) (branches : List String) (files : Leases)
      → get path files ≡ some (lease l)
      → active l q.now ≡ true
      → owned_by l q.owner ≡ false
      → get path (acquire_writer_leases lease_path fits system q branches files).1 ≡ some (lease l)
  unfolding acquire_writer_leases acquire_locked
  acquire_writer_leases-keeps path l q branches files e a o =
      let unique = unique_branches branches in
      continue_state (λ s. get path s ≡ some (lease l))
        (check_request lease_path fits system q unique)
        (λ _. acquire_locked lease_path fits system q unique) files e
        (λ u eu.
          acquire_read-keeps q path l unique files (read_all lease_path fits system unique files) e
            a o refl)

  pub release_writer_lease-keeps :
      (path : String) (l : Lease) (branch other : String) (task : Option String) (now : ℕ)
      (files : Leases)
      → get path files ≡ some (lease l)
      → active l now ≡ true
      → owned_by l other ≡ false
      → get path (release_writer_lease lease_path branch other task now files).1 ≡ some (lease l)
  unfolding release_writer_lease read_json
  release_writer_lease-keeps path l branch other task now files e a o =
      ground (arith, eq_iff (lease_path branch) path, get-pop_ne (lease_path branch) path files)

  pub sweep_owner-keeps :
      (other : String) (task : Option String) (path : String) (l : Lease) (files : Leases)
      → get path files ≡ some (lease l)
      → owned_by l other ≡ false
      → get path (sweep_owner other task files).1 ≡ some (lease l)
  unfolding sweep_owner releases get
  sweep_owner-keeps other task path l [] e o = e
  sweep_owner-keeps other task path l ((i, s) ∷ files) e o =
      ground (arith, eq_iff i path, sweep_owner-keeps other task path l files)

  pub release_owner_leases-keeps :
      (other : String) (task : Option String) (path : String) (l : Lease) (files : Leases)
      → get path files ≡ some (lease l)
      → owned_by l other ≡ false
      → get path (release_owner_leases other task files).1 ≡ some (lease l)
  unfolding release_owner_leases
  release_owner_leases-keeps other task path l files e o =
      sweep_owner-keeps other task path l files e o
