-- ===== src/Audit.antt =====
-- Backend/src/audit: audit.entity.ts, audit.service.ts, audit.event.ts and audit.listener.ts. The id
-- and the time of a row are the database's; actors and entities are numbers, as ids are.
use farm_exc.Prelude.{ℕ, String, Option}
use farm_exc.Repository.{Repository}
use farm_exc.Workflow.Json.{Fields}

pub record AuditLog : Type 0 where
  pub action_type : String
  pub actor_id : ℕ
  pub entity_id : Option ℕ
  pub metadata : Option Fields

-- `AuditEvent` has the same fields.
abbrev pub AuditEvent : Type 0
AuditEvent = AuditLog

module _ {Logs : Type 0} (audit : Repository Logs AuditLog) where
  unfoldable pub log_action : String → ℕ → Option ℕ → Option Fields → Logs → Logs
  log_action action_type actor_id entity_id metadata logs = audit.insert logs (record {
    action_type = action_type;
    actor_id = actor_id;
    entity_id = entity_id;
    metadata = metadata;
  })

  unfoldable pub handle_audit : AuditEvent → Logs → Logs
  unfolding log_action
  handle_audit e logs = log_action e.action_type e.actor_id e.entity_id e.metadata logs
