-- ===== src/Patch/Staging/Moves.antt =====
-- What a move stages in `_analyze_patch` of coding_tools_mcp/server.py.
use devmcp_runtime.Base.Dict.Laws.{get-put}
use devmcp_runtime.Patch.Hunks.{patch_failed}
use devmcp_runtime.Base.Text.{text_eq}
use devmcp_runtime.Patch.Envelope.{PatchOperation, move}
use devmcp_runtime.Base.Dict.{Dict, get, put}
use devmcp_runtime.Patch.Staging.{
  OnDisk, stage_operations, stage_move, StagedText, text_of, validate_operation, is_directory,
  stage_operation,
}
use devmcp_runtime.Base.{
  ℕ, String, ◌≡◌, refl, sym, ap, ◌∙◌, subst, Bool, true, false, not, none, some, List, [], ◌∷◌,
  ◌++◌, arith, str_eq_self, Exception, Result, ok, guard, sequence_ok,
}

module _ (resolve_existing : List ℕ → Result String)
    (resolve_for_write : List ℕ → Result (String × Bool))
    (reject_write_symlink : List ℕ → Result (Unit {0})) (disk : String → OnDisk) where
  -- The target is staged with the text that the source has on the disk.
  unfoldable pub MovedFromDisk : List ℕ → List ℕ → Dict StagedText → Type 0
  MovedFromDisk path to staged =
      (source : String) × (target : String) × (text : List ℕ) × (resolve_existing path ≡ ok source)
      × (resolve_for_write to ≡ ok (target, false))
      × (text_of (disk source) ≡ ok text)
      × (get target staged ≡ some record { content = some text; baseline = disk target })

  guard_ok : (b : Bool) (e : Exception) {u : Unit {0}} → guard b e ≡ ok u → b ≡ true
  guard_ok true e h = refl
  guard_ok false e h = absurd (cc)

  stage_move-MovedFromDisk :
      (path to : List ℕ) (staged staged' : Dict StagedText)
      → stage_move resolve_existing resolve_for_write reject_write_symlink disk path to staged
        ≡ ok staged'
      → MovedFromDisk path to staged'
  unfolding stage_move MovedFromDisk
  stage_move-MovedFromDisk path to staged staged' h =
      let (u, a, h1) = sequence_ok _ (guard (not (text_eq to [])) patch_failed) h in
      let (source, r, h2) = sequence_ok _ (resolve_existing path) h1 in
      let (target, t, h3) = sequence_ok _ (resolve_for_write to) h2 in
      let (v, b, h4) = sequence_ok _ (guard (not (is_directory (disk source))) patch_failed) h3 in
      let (w, n, h5) = sequence_ok _ (guard (not target.1) patch_failed) h4 in
      let (text, x, last) = sequence_ok _ (text_of (disk source)) h5 in
      let left = put source record { content = none; baseline = disk source } staged in
      let entry : StagedText = record { content = some text; baseline = disk target.0 } in
      let same : put target.0 entry left ≡ staged' = cc in
      let is_new : target.1 ≡ false = ground (arith, guard_ok (not target.1) patch_failed n) in
      (
        source,
        target.0,
        text,
        r,
        t ∙ ap (λ e. ok (target.0, e)) is_new,
        x,
        sym (ap (get target.0) same)
            ∙ get-put target.0 target.0 entry left
            ∙ rw (str_eq_self target.0) refl,
      )

  -- Where a patch that ends in a move is staged, the target of the move gets the text that the source
  -- has on the disk, whatever the operations before it have staged for the source: an update of a file
  -- that is moved in the same patch is lost.
  pub move_reads_disk :
      (ops : List PatchOperation) (path to : List ℕ) (staged staged' : Dict StagedText)
      → stage_operations resolve_existing resolve_for_write reject_write_symlink disk
          (ops ++ (move path to ∷ []))
          staged
        ≡ ok staged'
      → MovedFromDisk path to staged'
  unfolding stage_operations
  move_reads_disk [] path to staged staged' h =
      let (u, a, h1) =
        sequence_ok _
          (validate_operation resolve_existing resolve_for_write reject_write_symlink disk
            (move path to))
          h in
      let (after, m, last) =
        sequence_ok _
          (stage_move resolve_existing resolve_for_write reject_write_symlink disk path to staged)
          h1 in
      let same : after ≡ staged' = cc in
      subst (MovedFromDisk path to) same (stage_move-MovedFromDisk path to staged after m)
  move_reads_disk (op ∷ ops) path to staged staged' h =
      let (u, a, h1) =
        sequence_ok _
          (validate_operation resolve_existing resolve_for_write reject_write_symlink disk op) h in
      let (after, m, last) =
        sequence_ok _
          (stage_operation resolve_existing resolve_for_write reject_write_symlink disk op staged)
          h1 in
      move_reads_disk ops path to after staged' last
