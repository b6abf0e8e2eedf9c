-- ===== src/Transaction/Finish.antt =====
-- What `finish` of coding_tools_mcp/transactions.py leaves of the authoritative tree.
use devmcp_runtime.Commit.Run.Outcome.{commit_undone}
use devmcp_runtime.Commit.Run.{commit}
use devmcp_runtime.Commit.Run.Attempt.{Same}
use devmcp_runtime.Commit.{rollback_failed, StagedFile, World}
use devmcp_runtime.Transaction.{
  as_transaction, TransactionChange, finish_transaction, applied, apply_staged, staged_of,
  summary_of,
}
use devmcp_runtime.Truncation.Utf8.{Bytes}
use devmcp_runtime.Base.{
  String, ◌≡◌, refl, sym, ap, ◌∙◌, ◌≢◌, inl, Bool, true, false, List, [], ◌∷◌, Exception,
  tool_failure, Result, ok, raised,
}

abbrev pub lost : Exception
lost = tool_failure "TRANSACTION_CONFLICT" "conflict" false

as_transaction-rollback : as_transaction rollback_failed ≡ lost
unfolding as_transaction
as_transaction-rollback = refl

module _ (parents : String → List String) (digest : Bytes → String) where
  applied_raised :
      (summary : List TransactionChange) (r : Result (Unit {0})) (e : Exception)
      → applied summary r ≡ raised e
      → (e' : Exception) × (r ≡ raised e') × (as_transaction e' ≡ e)
  applied_raised summary (ok u) e h = absurd (cc)
  applied_raised summary (raised e') e h = (e', refl, cc)

  apply_staged_undone :
      (apply : Bool) (both : List (StagedFile × TransactionChange)) (w : World) (q : String)
      (e : Exception)
      → (apply_staged parents digest apply both w).0 ≡ raised e
      → e ≢ lost
      → Same (w.files q) ((apply_staged parents digest apply both w).1.files q)
  apply_staged_undone false both w q e h ne = absurd (cc)
  apply_staged_undone true [] w q e h ne = absurd (cc)
  apply_staged_undone true (b ∷ both) w q e h ne =
      let staged = staged_of (b ∷ both) in
      let (e', r, same) =
        applied_raised (summary_of (b ∷ both)) (commit parents digest staged w).0 e h in
      commit_undone parents digest staged w q e' r
        (λ failed. ne (sym same ∙ ap as_transaction failed ∙ as_transaction-rollback))

  -- A transaction that raises, also where its changes are refused before the commit, leaves at every
  -- path the node that was there, whatever calls the operating system refuses, other than with a
  -- TRANSACTION_CONFLICT that is not to be retried; where there was nothing there may be a directory.
  pub finish_undone :
      (apply : Bool) (prepared : Result (List (StagedFile × TransactionChange))) (w : World)
      (q : String) (e : Exception)
      → (finish_transaction parents digest apply prepared w).0 ≡ raised e
      → e ≢ lost
      → Same (w.files q) ((finish_transaction parents digest apply prepared w).1.files q)
  unfolding finish_transaction
  finish_undone apply (raised e') w q e h ne = inl refl
  finish_undone apply (ok both) w q e h ne = apply_staged_undone apply both w q e h ne
