-- ===== src/Lease/Calls.antt =====
-- Sequences of calls of coding_tools_mcp/writer_lease.py, and the lease that outlives those of
-- other owners.
use devmcp_runtime.Lease.Release.{release_writer_lease, release_owner_leases}
use devmcp_runtime.Lease.Exclusion.{
  Held, acquire_writer_leases-keeps, Held-active, Held-owned_by, release_writer_lease-keeps,
  release_owner_leases-keeps,
}
use devmcp_runtime.Base.Dict.{get}
use devmcp_runtime.Lease.{WriteOutcome, Lease, Leases, lease}
use devmcp_runtime.Lease.Acquire.{Request, acquire_writer_leases}
use devmcp_runtime.Base.{
  ℕ, ◌<◌, String, ◌≡◌, refl, sym, ◌∙◌, Bool, false, Option, some, List, [], ◌∷◌, str_eq, All,
}

-- The calls of the module, each in the name of one owner at one time.
pub data Call : Type 0 where
  acquire : Request → List String → Call
  release : String → String → Option String → ℕ → Call
  release_all : String → Option String → ℕ → Call

abbrev pub caller : Call → String
caller (acquire q branches) = q.owner
caller (release branch owner task now) = owner
caller (release_all owner task now) = owner

abbrev pub called_at : Call → ℕ
called_at (acquire q branches) = q.now
called_at (release branch owner task now) = now
called_at (release_all owner task now) = now

-- A call of another owner before a time.
abbrev pub Foreign : String → ℕ → Call → Type 0
Foreign owner until c = (str_eq owner (caller c) ≡ false) × (called_at c < until)

module _ (lease_path : String → String) (fits : Lease → Bool)
    (system : String → Lease → WriteOutcome) where
  abbrev pub call : Call → Leases → Leases
  call (acquire q branches) files =
      (acquire_writer_leases lease_path fits system q branches files).1
  call (release branch owner task now) files =
      (release_writer_lease lease_path branch owner task now files).1
  call (release_all owner task now) files = (release_owner_leases owner task files).1

  abbrev pub run : List Call → Leases → Leases
  run [] files = files
  run (c ∷ cs) files = run cs (call c files)

  call-keeps :
      (owner : String) (until : ℕ) (path : String) (l : Lease) (c : Call) (files : Leases)
      → get path files ≡ some (lease l)
      → l.owner ≡ some owner
      → l.expires_at_epoch ≡ some until
      → Foreign owner until c
      → get path (call c files) ≡ some (lease l)
  call-keeps owner until path l (acquire q bs) files e eo ee (n, h) =
      acquire_writer_leases-keeps lease_path fits system path l q bs files e
        (Held-active l owner until q.now ee h) (Held-owned_by l owner q.owner eo n)
  call-keeps owner until path l (release b other task now) files e eo ee (n, h) =
      release_writer_lease-keeps lease_path fits system path l b other task now files e
        (Held-active l owner until now ee h) (Held-owned_by l owner other eo n)
  call-keeps owner until path l (release_all other task now) files e eo ee (n, h) =
      release_owner_leases-keeps lease_path fits system other task path l files e
        (Held-owned_by l owner other eo n)

  -- Whatever calls other owners make before a lease runs out, and however these end, the file of
  -- the lease stays what it is.
  pub run-Held :
      (owner : String) (until : ℕ) (path : String) (calls : List Call) (files : Leases)
      → Held owner until path files
      → All (Foreign owner until) calls
      → get path (run calls files) ≡ get path files
  run-Held owner until path [] files held h = refl
  run-Held owner until path (c ∷ cs) files (l, e, eo, ee) (f, h) =
      let kept = call-keeps owner until path l c files e eo ee f in
      run-Held owner until path cs (call c files) (l, kept, eo, ee) h ∙ kept ∙ sym e
