-- ===== src/Transaction/Changes.antt =====
-- Which changes `_diff_entries` and `prepare` of coding_tools_mcp/transactions.py let through.
use devmcp_runtime.Commit.{Bytes, StagedFile}
use devmcp_runtime.Base.Dict.{Dict, get}
use devmcp_runtime.Transaction.{
  a_dir, a_symlink, keeps_change, SnapshotEntry, collect, RawChange, a_file, entry_eq, kind_eq,
  Kind, with_change, diff_entries, bounded, stage_all, max_transaction_changed_files, prepare,
  TransactionChange, content_of, sorted_keys, max_transaction_apply_bytes, keys, stage, measured,
}
use devmcp_runtime.Base.{
  String, ◌≡◌, refl, ap, ◌∙◌, subst, ◌⊎◌, inl, inr, true, false, Option, none, some, List, [], ◌∷◌,
  arith, All, ok, sequence_ok, if_cases, ℕ, ◌+◌, ◌≤◌, not, ◌++◌, map, ltb, length, all, Result,
}

-- Nothing, or a regular file.
abbrev pub Regular : Option SnapshotEntry → Type 0
Regular none = Unit
Regular (some e) = e.kind ≡ a_file

-- A file that is new, gone, or another one.
abbrev pub FileChange : RawChange → Type 0
FileChange r = (entry_eq r.before r.after ≡ false) × Regular r.before × Regular r.after

kind_cases : (k : Kind) → (k ≡ a_file) ⊎ ((kind_eq k a_dir ≡ true) ⊎ (kind_eq k a_symlink ≡ true))
unfolding kind_eq
kind_cases a_file = inl refl
kind_cases a_dir = inr (inl refl)
kind_cases a_symlink = inr (inr refl)

kind_eq_sound : (j k : Kind) → kind_eq j k ≡ true → j ≡ k
unfolding kind_eq
kind_eq_sound a_file a_file h = refl
kind_eq_sound a_file a_dir h = absurd (ground (arith, h))
kind_eq_sound a_file a_symlink h = absurd (ground (arith, h))
kind_eq_sound a_dir a_file h = absurd (ground (arith, h))
kind_eq_sound a_dir a_dir h = refl
kind_eq_sound a_dir a_symlink h = absurd (ground (arith, h))
kind_eq_sound a_symlink a_file h = absurd (ground (arith, h))
kind_eq_sound a_symlink a_dir h = absurd (ground (arith, h))
kind_eq_sound a_symlink a_symlink h = refl

keeps_change-Regular :
    (before after : Option SnapshotEntry)
    → keeps_change before after ≡ ok true
    → (entry_eq before after ≡ false) × Regular before × Regular after
unfolding keeps_change
keeps_change-Regular none none h = ground (arith, h)
keeps_change-Regular none (some b) h = ground (arith, h, kind_cases b.kind)
keeps_change-Regular (some a) none h = ground (arith, h, kind_cases a.kind)
keeps_change-Regular (some a) (some b) h =
    ground (arith, h, kind_cases a.kind, kind_cases b.kind, kind_eq_sound a.kind b.kind)

collect-FileChange :
    (before after : Dict SnapshotEntry) (rels : List String) (raw : List RawChange)
    → collect before after rels ≡ ok raw
    → All FileChange raw
unfolding collect
collect-FileChange before after [] raw h =
    let same : [] ≡ raw = cc in subst (All FileChange) same tt
collect-FileChange before after (rel ∷ rels) raw h =
    let (kept, k, more) = sequence_ok _ (keeps_change (get rel before) (get rel after)) h in
    let (rest, r, last) = sequence_ok _ (collect before after rels) more in
    let change : RawChange = record { rel = rel; before = get rel before; after = get rel after } in
    let same : with_change kept change rest ≡ raw = cc in
    let others = collect-FileChange before after rels rest r in
    subst (All FileChange) same (
      if_cases {A = List RawChange} (All FileChange) kept
        (λ e. (keeps_change-Regular (get rel before) (get rel after) (k ∙ ap ok e), others))
        (λ e. others))

bounded_ok :
    (all raw : List RawChange)
    → bounded all ≡ ok raw
    → (all ≡ raw) × (length raw ≤ max_transaction_changed_files)
bounded_ok all raw =
    if_cases {A = Result (List RawChange)}
      (λ x. x ≡ ok raw → (all ≡ raw) × (length raw ≤ max_transaction_changed_files))
      (ltb max_transaction_changed_files (length all)) (λ e h. absurd (ground (arith, h)))
      (λ e h.
        let same : all ≡ raw = cc in
        let few : length all ≤ max_transaction_changed_files = ground (arith, e) in
        (same, subst (λ l. length l ≤ max_transaction_changed_files) same few))

diff_entries-FileChange :
    (before after : Dict SnapshotEntry) (raw : List RawChange)
    → diff_entries before after ≡ ok raw
    → All FileChange raw × (length raw ≤ max_transaction_changed_files)
unfolding diff_entries
diff_entries-FileChange before after raw h =
    let rels = sorted_keys (keys before ++ keys after) in
    let (all, c, last) = sequence_ok _ (collect before after rels) h in
    let (same, few) = bounded_ok all raw last in
    (subst (All FileChange) same (collect-FileChange before after rels all c), few)

abbrev pub size_of : Option Bytes → ℕ
size_of none = 0
size_of (some c) = length c

-- The bytes that a transaction writes.
abbrev pub total : List (StagedFile × TransactionChange) → ℕ
total [] = 0
total (b ∷ both) = size_of b.0.content + total both

abbrev pub paths_of : List (StagedFile × TransactionChange) → List String
paths_of both = map (λ b. b.0.path) both

module _ (validate : String → Result (Unit {0})) (place : String → String)
    (read : String → Result Bytes) where
  measured_size :
      (n : ℕ) (content : Bytes) (c : Option Bytes × ℕ)
      → measured validate place read n content ≡ ok c
      → (c.1 ≡ n + size_of c.0) × (c.1 ≤ max_transaction_apply_bytes)
  measured_size n content c =
      if_cases {A = Result (Option Bytes × ℕ)}
        (λ x. x ≡ ok c → (c.1 ≡ n + size_of c.0) × (c.1 ≤ max_transaction_apply_bytes))
        (ltb max_transaction_apply_bytes (n + length content)) (λ e h. absurd (ground (arith, h)))
        (λ e h.
          let same : (some content, n + length content) ≡ c = cc in
          let small : n + length content ≤ max_transaction_apply_bytes = ground (arith, e) in
          subst
            (λ (d : Option Bytes × ℕ).
              (d.1 ≡ n + size_of d.0) × (d.1 ≤ max_transaction_apply_bytes))
            same (refl, small))

  content_of_size :
      (after : Option SnapshotEntry) (rel : String) (n : ℕ) (c : Option Bytes × ℕ)
      → content_of validate place read after rel n ≡ ok c
      → n ≤ max_transaction_apply_bytes
      → (c.1 ≡ n + size_of c.0) × (c.1 ≤ max_transaction_apply_bytes)
  unfolding content_of
  content_of_size none rel n c h small =
      let same : (none, n) ≡ c = cc in
      subst
        (λ (d : Option Bytes × ℕ). (d.1 ≡ n + size_of d.0) × (d.1 ≤ max_transaction_apply_bytes))
        same (omega arith, small)
  content_of_size (some e) rel n c h small =
      if_cases {A = Result (Option Bytes × ℕ)}
        (λ x. x ≡ ok c → (c.1 ≡ n + size_of c.0) × (c.1 ≤ max_transaction_apply_bytes))
        (not (kind_eq e.kind a_file)) (λ f h'. absurd (ground (arith, h')))
        (λ f h'.
          let (content, k, last) = sequence_ok _ (read rel) h' in measured_size n content c last)
        h

  stage_all_ok :
      (raw : List RawChange) (n : ℕ) (both : List (StagedFile × TransactionChange))
      → stage_all validate place read raw n ≡ ok both
      → n ≤ max_transaction_apply_bytes
      → (n + total both ≤ max_transaction_apply_bytes)
        × (paths_of both ≡ map (λ r. place r.rel) raw)
  unfolding stage_all
  stage_all_ok [] n both h small =
      let same : [] ≡ both = cc in
      subst (λ b. (n + total b ≤ max_transaction_apply_bytes) × (paths_of b ≡ [])) same
        (omega (arith, small), refl)
  stage_all_ok (r ∷ rs) n both h small =
      let (u, v, checked) = sequence_ok _ (validate r.rel) h in
      let (c, k, more) = sequence_ok _ (content_of validate place read r.after r.rel n) checked in
      let (rest, s, last) = sequence_ok _ (stage_all validate place read rs c.1) more in
      let (grown, fits) = content_of_size r.after r.rel n c k small in
      let (in_all, same_paths) = stage_all_ok rs c.1 rest s fits in
      let same : stage validate place read r c.0 ∷ rest ≡ both = cc in
      subst
        (λ b.
          (n + total b ≤ max_transaction_apply_bytes)
          × (paths_of b ≡ place r.rel ∷ map (λ r'. place r'.rel) rs))
        same (omega (arith, grown, in_all), ap (λ ps. place r.rel ∷ ps) same_paths)

  -- Where the changes of a command are prepared, those that `diff_entries` finds are staged, in their
  -- order; by each of them a regular file is new, gone or another one. They are 2000 at most and
  -- write at most 128 MiB.
  pub prepare-FileChange :
      (before after : Dict SnapshotEntry) (both : List (StagedFile × TransactionChange))
      → prepare validate place read before after ≡ ok both
      → (raw : List RawChange) × (diff_entries before after ≡ ok raw)
        × All FileChange raw
        × (paths_of both ≡ map (λ r. place r.rel) raw)
        × (length raw ≤ max_transaction_changed_files)
        × (total both ≤ max_transaction_apply_bytes)
  unfolding prepare
  prepare-FileChange before after both h =
      let (raw, d, staged) = sequence_ok _ (diff_entries before after) h in
      let (changes, few) = diff_entries-FileChange before after raw d in
      let (small, same) = stage_all_ok raw 0 both staged (omega arith) in
      (raw, d, changes, same, few, omega (arith, small))
