-- ===== src/AgentAudit/Loaded.antt =====
-- A run that was persisted, loaded again.
use aicti.Value.{Value}
use aicti.Library.{Library}
use aicti.Db.{Db}
