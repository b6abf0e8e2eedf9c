-- ===== src/Commit.antt =====
-- coding_tools_mcp/patching.py, `FileBaseline`, `StagedFile` and the operating-system calls of
-- `AtomicPatchCommitter`. A file system is a function from paths to nodes. Each call that may fail
-- takes one answer from a list, `false` for an `OSError`; nobody else writes during the commit. The
-- names that `mkstemp` makes are unused, so the temporary file and the backup of a path are kept in
-- maps of their own. A node is a file or a directory: no changed path is a symbolic link, in
-- particular none that leads nowhere. `parents` is `Path.parents` and `digest` is SHA-256.
pub mod Run
use devmcp_runtime.Base.{
  ℕ, String, Bool, true, false, not, ◌&&◌, ◌||◌, Option, none, some, List, [], ◌∷◌, ◌==◌, str_eq,
  if◌then◌else◌, Exception, tool_failure, os_error, Result, ok, raised, Exec, continue, bind, zero,
  suc, ◌+◌, ◌-◌, ◌*◌, ◌/◌, ◌%◌, ◌≤◌, ◌<◌, min, max, ◌≡◌, refl, sym, ap, ◌∙◌, subst, subst₂, fun_ext,
  ◌≢◌, ◌↔◌, ◌⊎◌, inl, inr, ◌++◌, map, arith, eq_iff, ltb, leb, ltb→lt, lt→ltb, leb→le, str_eq_self,
  str_eq_ne, Bool-cases, Option-cases, if_both, length, take, drop, any, all, keep_if, All,
  length-append, take-append-drop, length-take, length-drop, length-keep_if, runtime_error,
  value_error, file_exists_error, ◌>>=◌, ◌>>◌, guard, pure, raise, continue_state, bind_state,
  sequence_ok,
}

abbrev pub Bytes : Type 0
Bytes = List ℕ

pub data Node : Type 0 where
  file : Bytes → ℕ → Node
  dir : Node

abbrev pub Tree : Type 0
Tree = String → Option Node

-- `path.exists()`
abbrev pub exists : String → Tree → Bool
exists p t = elim (t p) [ none ↦ false | some n ↦ true ]

-- The path with another node, or with none.
unfoldable pub set_node : String → Option Node → Tree → Tree
set_node p n t q = if str_eq p q then n else t q

pub record World : Type 0 where
  pub files : Tree
  pub temps : Tree  -- the files of `_prepare_file`, by the path they are for
  pub saved : Tree  -- the files at the backup paths, by the path they come from
  pub prepared : List String  -- the keys of the dict of that name
  pub backups : List String  -- likewise
  pub installed : List String
  pub created_dirs : List String
  pub answers : List Bool

abbrev pub Act : Type 0
Act = Exec World (Unit {0})

unfoldable pub member : String → List String → Bool
member p [] = false
member p (q ∷ qs) = str_eq q p || member p qs

-- One call of the operating system.
unfoldable pub system_call : Act
system_call w = elim w.answers [
  | [] ↦ (ok tt, w)
  | a ∷ rest ↦ (if a then ok tt else raised os_error, record w { answers = rest })
]

-- A call, and what it does where it succeeds.
abbrev pub perform : (World → World) → Act
perform change = bind system_call (λ _ w. (ok tt, change w))

unfoldable pub each {ℓ} : {A : Type ℓ} → (A → Act) → List A → Act
each f [] w = (ok tt, w)
each f (a ∷ rest) w = continue (f a w).0 (λ _. each f rest) (f a w).1

pub record FileBaseline : Type 0 where
  pub has_data : Bool  -- `self.data is not None`
  pub mode : ℕ
  pub sha : String

pub record StagedFile : Type 0 where
  pub path : String
  pub content : Option Bytes
  pub baseline : FileBaseline
  pub mode : Option ℕ

abbrev pub patch_conflict : Exception
patch_conflict = tool_failure "PATCH_CONFLICT" "conflict" true

abbrev pub rollback_failed : Exception
rollback_failed = tool_failure "PATCH_ROLLBACK_FAILED" "internal" false

abbrev pub patch_refused : Exception
patch_refused = tool_failure "PATCH_FAILED" "validation" false

module _ (digest : Bytes → String) where
  -- `FileBaseline.matches`, where the file has been read
  abbrev pub same_file : FileBaseline → Option Node → Bool
  same_file b none = not b.has_data
  same_file b (some dir) = false
  same_file b (some (file bytes mode)) = b.has_data && str_eq b.sha (digest bytes) && b.mode == mode

  -- `FileBaseline.matches` reads where it expects a file and finds one.
  abbrev pub is_read : FileBaseline → Option Node → Bool
  is_read b none = false
  is_read b (some dir) = false
  is_read b (some (file bytes mode)) = b.has_data

  -- `_assert_baseline`
  unfoldable pub assert_baseline : StagedFile → Act
  assert_baseline c w =
      let there = w.files c.path in
      continue (if is_read c.baseline there then (system_call w).0 else ok tt)
        (λ _ w'. (if same_file c.baseline there then ok tt else raised patch_conflict, w'))
        (if is_read c.baseline there then (system_call w).1 else w)

-- `FileBaseline.capture`: refused for a directory.
unfoldable pub capture : (Bytes → String) → Option Node → Result FileBaseline
capture digest none = ok record { has_data = false; mode = 0; sha = "" }
capture digest (some dir) = raised patch_refused
capture digest (some (file bytes mode)) =
    ok record { has_data = true; mode = mode; sha = digest bytes }
