-- ===== src/Repair/Errors.antt =====
-- src/property_agent/repair/domain/errors.py: the exceptions that the repair package raises, and
-- those of the platform that pass through it.
use property_community_agent.Base.{ℕ, String, List}
use property_community_agent.Platform.ConfirmationPort.{PortError}
use property_community_agent.Repair.Enums.{WorkOrderStatus, ActionCode}

pub data RepairError : Type 0 where
  validation_error forbidden : String → RepairError
  not_found idempotency_conflict confirmation_required review_already_exists : RepairError
  invalid_transition : WorkOrderStatus → ActionCode → List ActionCode → RepairError
  version_conflict : ℕ → RepairError
  handover_required : ℕ → ℕ → RepairError
  port_error : PortError → RepairError
  corrupt_snapshot : RepairError
