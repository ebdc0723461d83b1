-- ===== src/Store/Refines/Filing.antt =====
-- A batch of artifacts on the memory store (crates/openwork-execution/src/store/mod.rs): what it needs,
-- and what the store holds with it.
use openwork.Common.{
  ◌≡◌, refl, false, some, List, ◌++◌, arith, length, length-append, any, not, ◌+◌, ◌==◌,
}
use openwork.Common.Map.{get, insert, get-insert_at}
use openwork.Common.Exec.Rules.{Ensures, Ensures-pure, Ensures-refuse_if}
use openwork.Contract.{RunId}
use openwork.Contract.Run.{Artifact}
use openwork.Contract.Audit.{AuditEvent}
use openwork.Store.{State, or_empty}
use openwork.Store.Records.{validate_artifact_batch, duplicate_path}

-- No path stands twice, and each file is this run's.
abbrev pub BatchFits : State → RunId → List Artifact → Type 0
BatchFits s id files =
    (duplicate_path (or_empty (get id s.artifacts)) files files ≡ false)
    × (any (λ a. not (a.run_id == id)) files ≡ false)

-- The batch check changes nothing.
pub validate_artifact_batch_lem :
    (id : RunId) (files : List Artifact) (s : State)
    → Ensures
        (λ t. t ≡ s)
        (λ _ t. (t ≡ s) × BatchFits s id files)
        (validate_artifact_batch s id files)
        s
validate_artifact_batch_lem id files s = Ensures-refuse_if _ _ _ refl λ mine.
    Ensures-refuse_if _ _ _ refl λ typed.
      Ensures-refuse_if _ _ _ refl λ distinct. Ensures-pure tt (refl, (distinct, ground arith))

-- The files of a run after a batch, and one event for each file.
pub record Filed (id : RunId) (files : List Artifact) (s t : State) : Type 0 where
  pub stored : get id t.artifacts ≡ some (or_empty (get id s.artifacts) ++ files)
  pub distinct : duplicate_path (or_empty (get id s.artifacts)) files files ≡ false
  pub audited :
      length (or_empty (get id t.audits)) ≡ length (or_empty (get id s.audits)) + length files

pub filed :
    (id : RunId) (files : List Artifact) (s : State) (chain events : List AuditEvent)
    → get id s.audits ≡ some chain
    → length events ≡ length files
    → duplicate_path (or_empty (get id s.artifacts)) files files ≡ false
    → Filed id files s (record s {
      artifacts = insert id (or_empty (get id s.artifacts) ++ files) s.artifacts;
      audits = insert id (chain ++ events) s.audits;
    })
filed id files s chain events held size distinct = record {
  stored = get-insert_at (or_empty (get id s.artifacts) ++ files) s.artifacts refl;
  distinct = distinct;
  audited =
      rw (get-insert_at {k = id} {j = id} (chain ++ events) s.audits refl, held)
        (omega (arith, length-append {0} chain events));
}
