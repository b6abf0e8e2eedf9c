-- ===== src/Session/Jobs/Counts.antt =====
-- How many jobs a logical context owns, and what each step of the shared job registry of
-- coding_tools_mcp/session_state.py does to that number.
use devmcp_runtime.Base.Dict.{get, Dict, pop, put}
use devmcp_runtime.Session.Jobs.{
  split_jobs, refresh_status, Job, Reading, job_values, refresh_all, Server, job_expired,
}
use devmcp_runtime.Base.{
  ℕ, ◌+◌, ◌≤◌, ◌<◌, String, ◌≡◌, refl, ◌∙◌, Bool, none, some, List, [], ◌∷◌, arith, eq_iff, str_eq,
  if◌then◌else◌, str_eq_self, length,
}

-- One where the context owns the job.
abbrev pub share : String → Job → ℕ
share k j = if str_eq j.owner_context_id k then 1 else 0

unfoldable pub owned : String → Dict Job → ℕ
owned k [] = 0
owned k ((h, j) ∷ d) = share k j + owned k d

unfoldable pub owned_in : String → List Job → ℕ
owned_in k [] = 0
owned_in k (j ∷ js) = share k j + owned_in k js

owned-refresh_all :
    (k : String) (r : Reading) (d : Dict Job) → owned k (refresh_all r d) ≡ owned k d
unfolding owned refresh_status
owned-refresh_all k r [] = refl
owned-refresh_all k r ((h, j) ∷ d) = ground (arith, owned-refresh_all k r d)

owned-split_jobs :
    (k : String) (gone : Job → Bool) (d : Dict Job)
    → owned k (split_jobs gone d).0 + owned_in k (split_jobs gone d).1 ≡ owned k d
unfolding owned owned_in split_jobs
owned-split_jobs k gone [] = refl
owned-split_jobs k gone ((h, j) ∷ d) = ground (arith, owned-split_jobs k gone d)

pub owned-found :
    (k h : String) (j : Job) (d : Dict Job)
    → get h d ≡ some j
    → owned k (pop h d) + share k j ≡ owned k d
unfolding owned get pop
owned-found k h j [] e = absurd (ground arith)
owned-found k h j ((i, w) ∷ d) e = ground (arith, eq_iff i h, owned-found k h j d)

pub owned-put_found :
    (k h : String) (j j' : Job) (d : Dict Job)
    → get h d ≡ some j
    → j'.owner_context_id ≡ j.owner_context_id
    → owned k (put h j' d) ≡ owned k d
unfolding owned get put
owned-put_found k h j j' [] e o = absurd (ground arith)
owned-put_found k h j j' ((i, w) ∷ d) e o = ground (arith, eq_iff i h, owned-put_found k h j j' d)

pub owned-put_new :
    (k h : String) (j : Job) (d : Dict Job)
    → get h d ≡ none
    → owned k (put h j d) ≡ owned k d + share k j
unfolding owned get put
owned-put_new k h j [] e = ground arith
owned-put_new k h j ((i, w) ∷ d) e = ground (arith, eq_iff i h, owned-put_new k h j d)

-- To put a new key and to pop it again changes nothing.
pub pop-put_new : (h : String) (j : Job) (d : Dict Job) → get h d ≡ none → pop h (put h j d) ≡ d
unfolding get put pop
pop-put_new h j [] e = ground (arith, str_eq_self h)
pop-put_new h j ((i, w) ∷ d) e = ground (arith, eq_iff i h, pop-put_new h j d)

-- Where a job is in the table, its owner owns at least one.
pub owned-positive :
    (h : String) (j : Job) (d : Dict Job) → get h d ≡ some j → 0 < owned j.owner_context_id d
unfolding owned get
owned-positive h j [] e = absurd (ground arith)
owned-positive h j ((i, w) ∷ d) e =
    ground (arith, eq_iff i h, owned-positive h j d, str_eq_self j.owner_context_id)

pub owned-job_values : (k : String) (d : Dict Job) → owned_in k (job_values d) ≡ owned k d
unfolding owned owned_in
owned-job_values k [] = refl
owned-job_values k ((h, j) ∷ d) = ground (arith, owned-job_values k d)

length-refresh_all : (r : Reading) (d : Dict Job) → length (refresh_all r d) ≡ length d
length-refresh_all r [] = refl
length-refresh_all r ((h, j) ∷ d) = ground (arith, length-refresh_all r d)

length-split_jobs : (gone : Job → Bool) (d : Dict Job) → length (split_jobs gone d).0 ≤ length d
unfolding split_jobs
length-split_jobs gone [] = omega arith
length-split_jobs gone ((h, j) ∷ d) = ground (arith, length-split_jobs gone d)

pub length-pop_jobs : (h : String) (d : Dict Job) → length (pop h d) ≤ length d
unfolding pop
length-pop_jobs h [] = omega arith
length-pop_jobs h ((i, w) ∷ d) = ground (arith, length-pop_jobs h d)

-- The jobs that a sweep keeps and those that it pops.
abbrev pub swept_jobs : Reading → Server → Dict Job × List Job
swept_jobs r s = split_jobs (job_expired r s.completed_ttl_seconds) (refresh_all r s.jobs)

pub owned-swept_jobs :
    (k : String) (r : Reading) (s : Server)
    → owned k (swept_jobs r s).0 + owned_in k (swept_jobs r s).1 ≡ owned k s.jobs
owned-swept_jobs k r s =
    owned-split_jobs k (job_expired r s.completed_ttl_seconds) (refresh_all r s.jobs)
    ∙ owned-refresh_all k r s.jobs

pub length-swept_jobs : (r : Reading) (s : Server) → length (swept_jobs r s).0 ≤ length s.jobs
length-swept_jobs r s = omega (
  arith,
  length-split_jobs (job_expired r s.completed_ttl_seconds) (refresh_all r s.jobs),
  length-refresh_all r s.jobs,
)
