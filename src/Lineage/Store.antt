-- ===== src/Lineage/Store.antt =====
-- services/artifact_store.py. `hex` gives the first twelve digits of the identifiers drawn; the stage, the
-- hashes and the parents' encoded list are written and never read.
use aicti.Base.{ℕ, suc, String, ◌==◌, concat, Option, [], ◌∷◌, ◌++◌, first}
use aicti.Value.{Fields}
use aicti.Db.{Db, Artifact}

unfoldable create_artifact : (ℕ → String) → String → String → Fields → Db → String × Db
create_artifact hex run_id kind payload db =
    let artifact_id = concat "artifact_" (hex db.draws) in
    (
      artifact_id,
      record db {
        draws = suc db.draws;
        artifacts =
            db.artifacts
            ++ record { id = artifact_id; run_id = run_id; kind = kind; payload = payload } ∷ [];
      },
    )

unfoldable get_artifact : String → Db → Option Artifact
get_artifact artifact_id db = first (λ (a : Artifact). a.id == artifact_id) db.artifacts
