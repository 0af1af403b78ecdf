-- ===== src/Hashing.antt =====
-- core/hashing.py and core/idempotency.py: hashes of JSON payloads.
use aicti.Base.{String, ◌==◌, Bool, concat}
use aicti.Value.{Value}
use aicti.Library.{Library}

module _ (library : Library) where
  pub canonicalize_payload : Value → String
  canonicalize_payload payload = library.dumps payload

  unfoldable pub snapshot_hash : Value → String
  unfolding canonicalize_payload
  snapshot_hash payload = library.sha256 (canonicalize_payload payload)

  unfoldable pub verify_snapshot_hash : Value → String → Bool
  verify_snapshot_hash payload expected_hash = snapshot_hash payload == expected_hash

  unfoldable pub make_idempotency_key : String → Value → String
  unfolding canonicalize_payload
  make_idempotency_key stage_identifier payload =
      concat "idem_"
        (library.sha256 (concat stage_identifier (concat "|" (canonicalize_payload payload))))
