-- ===== src/Session/Contexts/Tests.antt =====
-- Two contexts of one project: one owns the project's workspace, the other is idle.
use devmcp_runtime.Session.Contexts.Claims.Existing.{
  bound, claim_existing_exclusive, claim_existing_raised, rollback_claim_existing,
}
use devmcp_runtime.Session.Contexts.Traces.{
  Op, run, prune_op, run-keeps_leased, run-Inv, release_op, claim_op, create_op,
}
use devmcp_runtime.Session.Contexts.Creation.{make_room, create, oldest_from}
use devmcp_runtime.Session.Contexts.Leases.{lease_count}
use devmcp_runtime.Session.Contexts.Creation.Room.{
  make_room-lru, make_room-raised_iff, create_unnotified,
}
use devmcp_runtime.Session.Contexts.Claims.{
  Claims, claim_mutation_exclusive, claim_mutation_contended,
}
use devmcp_runtime.Session.Contexts.Invariant.{Inv}
use devmcp_runtime.Base.Dict.{get, has}
use devmcp_runtime.Session.Contexts.{
  prune, Registry, Ref, Context, held, sweep, stale, notify_expired,
}
use devmcp_runtime.Session.Contexts.Claiming.{
  claim_mutation_workspace, any_value, rival, rollback_existing_workspace_claim,
  claim_existing_workspace, bind_workspace, binding,
}
use devmcp_runtime.Base.{
  ◌≤◌, ◌<◌, String, ◌≡◌, refl, ◌≢◌, ◌↔◌, true, false, Option, none, some, List, [], ◌∷◌, arith,
  eq_iff, str_eq, if◌then◌else◌, Exception, runtime_error, file_exists_error, os_error, ok, raised,
  inr,
}

abbrev owner : Context
owner = record {
  context_id = "ctx_a";
  oid = 0;
  canonical_project_root = "/p";
  effective_workspace_root = "/p";
  default_cwd = "/p";
  created_at = 0;
  last_seen = 5;
  leases = 1;
  mutation_workspace_claimed = true;
}

abbrev idle : Context
idle = record {
  context_id = "ctx_b";
  oid = 1;
  canonical_project_root = "/p";
  effective_workspace_root = "/p";
  default_cwd = "/p";
  created_at = 1;
  last_seen = 7;
  leases = 0;
  mutation_workspace_claimed = false;
}

abbrev both : Registry
both = record {
  ttl_seconds = 3600;
  has_callback = true;
  contexts = ("ctx_a", owner) ∷ ("ctx_b", idle) ∷ [];
  expired = [];
  next_oid = 2;
}

abbrev lone : Registry
lone = record both { contexts = ("ctx_b", idle) ∷ [] }

both-Inv : Inv both
unfolding get
both-Inv = record {
  distinct = (refl, (refl, tt));
  keyed = (refl, (refl, tt));
  bounded = omega arith;
}

lone-Inv : Inv lone
unfolding get
lone-Inv = record { distinct = (refl, tt); keyed = (refl, tt); bounded = omega arith }

abbrev idle_ref : Ref
idle_ref = record { context_id = "ctx_b"; oid = 1 }

abbrev all_resolve : String → Option String
all_resolve p = some p

abbrev same_path : String → String
same_path p = p

lone_claims :
    claim_mutation_workspace 10 11 idle_ref lone
    ≡ (ok false, (claim_mutation_workspace 10 11 idle_ref lone).1)
unfolding claim_mutation_workspace prune held sweep stale get notify_expired any_value rival
lone_claims = refl

lone_holds : held idle_ref (prune 10 lone) ≡ some idle
unfolding prune held sweep stale get notify_expired
lone_holds = refl

both_holds : held idle_ref (prune 10 both) ≡ some idle
unfolding prune held sweep stale get notify_expired
both_holds = refl

abbrev lone_claimed : Registry
lone_claimed = (claim_mutation_workspace 10 11 idle_ref lone).1

claim_mutation_exclusive_example :
    (get "ctx_b" lone_claimed.contexts
      ≡ some (record idle { mutation_workspace_claimed = true; last_seen = 11 }))
    × ((j : String) (o : Context)
        → "ctx_b" ≢ j
        → get j lone_claimed.contexts ≡ some o
        → ¬ Claims o "/p")
claim_mutation_exclusive_example =
    claim_mutation_exclusive 10 11 idle_ref lone lone_claimed idle lone-Inv lone_holds refl
      lone_claims

abbrev both_claimed : Registry
both_claimed = (claim_mutation_workspace 10 11 idle_ref both).1

both_claims : claim_mutation_workspace 10 11 idle_ref both ≡ (ok true, both_claimed)
unfolding claim_mutation_workspace prune held sweep stale get notify_expired any_value rival
both_claims = refl

claim_mutation_contended_example :
    (j : String) × (o : Context) × ("ctx_b" ≢ j)
    × (get j (prune 10 both).contexts ≡ some o)
    × Claims o "/p"
claim_mutation_contended_example =
    claim_mutation_contended 10 11 idle_ref both both_claimed idle both-Inv both_holds refl
      both_claims

-- The claim of an existing workspace "/w", its refusal, and its rollback.
abbrev moved : Registry
moved = (claim_existing_workspace all_resolve 10 11 idle_ref "/w" "/w" both).1

moved_claims :
    claim_existing_workspace all_resolve 10 11 idle_ref "/w" "/w" both ≡ (ok (binding idle), moved)
unfolding claim_existing_workspace bind_workspace prune held sweep stale get notify_expired
    any_value rival
moved_claims = refl

claim_existing_exclusive_example :
    (target : String) × (cwd : String) × (all_resolve "/w" ≡ some target)
    × (get "ctx_b" moved.contexts ≡ some (bound idle target cwd 11))
    × ((j : String) (o : Context)
        → "ctx_b" ≢ j
        → get j moved.contexts ≡ some o
        → Claims o "/p"
        → o.effective_workspace_root ≢ target)
claim_existing_exclusive_example =
    claim_existing_exclusive all_resolve 10 11 idle_ref "/w" "/w" both moved (binding idle) idle
      both-Inv both_holds moved_claims

rollback_claim_existing_example :
    get "ctx_b"
      (rollback_existing_workspace_claim same_path 12 idle_ref "/w" (binding idle) moved).contexts
    ≡ some (record idle { last_seen = 12 })
rollback_claim_existing_example =
    rollback_claim_existing all_resolve 10 11 idle_ref "/w" "/w" both moved (binding idle) idle
      both-Inv both_holds moved_claims same_path 12 "ctx_b" refl

abbrev taken : Exception
taken = file_exists_error "workspace already owned by another live context"

taken_raised : (claim_existing_workspace all_resolve 10 11 idle_ref "/p" "/p" both).0 ≡ raised taken
unfolding claim_existing_workspace bind_workspace prune held sweep stale get notify_expired
    any_value rival
taken_raised = refl

claim_existing_raised_example :
    (claim_existing_workspace all_resolve 10 11 idle_ref "/p" "/p" both).1 ≡ prune 10 both
claim_existing_raised_example =
    claim_existing_raised all_resolve 10 11 idle_ref "/p" "/p" both taken taken_raised

-- A sweep long after, an eviction and a claim, while "ctx_a" has its lease.
abbrev calls : List Op
calls =
    prune_op 100000
    ∷ release_op 1 "ctx_b"
    ∷ claim_op 7 8 idle_ref
    ∷ create_op 1 2 3 "ctx_c" "/q" "/q" "/q"
    ∷ []

one_lease : 0 < lease_count "ctx_a" both
unfolding lease_count get
one_lease = omega arith

c_ne_a : ◌≢◌ {A = String} "ctx_c" "ctx_a"
c_ne_a e = cc ((eq_iff "ctx_c" "ctx_a").1 e)

run-Inv_example : Inv (run all_resolve same_path calls both)
run-Inv_example = run-Inv all_resolve same_path calls both both-Inv

run-keeps_leased_example : has "ctx_a" (run all_resolve same_path calls both).contexts ≡ true
run-keeps_leased_example =
    run-keeps_leased all_resolve same_path "ctx_a" calls both both-Inv
      (tt, (tt, (tt, (c_ne_a, tt)))) one_lease

-- The limit lowered to 2, so that two contexts fill the registry.
abbrev after_eviction : Registry
after_eviction = (make_room 2 both).1

idle_evicted : make_room 2 both ≡ (ok (idle ∷ []), after_eviction)
unfolding make_room oldest_from
idle_evicted = refl

idle_there : get "ctx_b" both.contexts ≡ some idle
unfolding get
idle_there = refl

make_room-lru_example :
    (idle.leases ≡ 0)
    × ((j : String) (x : Context) → get j both.contexts ≡ some x → x.leases ≡ 0 → 7 ≤ x.last_seen)
    × ((j : String)
        → get j after_eviction.contexts ≡ (if str_eq "ctx_b" j then none else get j both.contexts))
make_room-lru_example =
    make_room-lru 2 both after_eviction "ctx_b" idle both-Inv idle_there idle_evicted

make_room-raised_iff_example :
    ((make_room 2 both).0 ≡ raised (runtime_error "maximum leased logical-context count reached"))
    ↔ ((2 ≤ 2) × ((j : String) (x : Context) → get j both.contexts ≡ some x → 0 < x.leases))
make_room-raised_iff_example = make_room-raised_iff 2 both both-Inv

abbrev gone_resolve : String → Option String
gone_resolve p = if str_eq p "/gone" then none else some p

pruned_there : get "ctx_b" (prune 10 both).contexts ≡ some idle
unfolding prune sweep stale get notify_expired
pruned_there = refl

pruned_evicted : make_room 2 (prune 10 both) ≡ (ok (idle ∷ []), (make_room 2 (prune 10 both)).1)
unfolding prune sweep stale notify_expired make_room oldest_from
pruned_evicted = refl

create_unnotified_example :
    let made = create gone_resolve 2 10 11 12 "ctx_c" "/p" "/p" "/gone" both in
    (made.0 ≡ raised os_error)
    × (get "ctx_b" made.1.contexts ≡ none)
    × (made.1.expired ≡ (prune 10 both).expired)
create_unnotified_example =
    create_unnotified gone_resolve 10 11 12 "ctx_c" "/p" "/p" "/gone" "ctx_b" 2 both
      (make_room 2 (prune 10 both)).1 idle both-Inv pruned_there pruned_evicted (inr (inr refl))
