-- ===== src/Inspection/Errors.antt =====
-- src/property_agent/inspection/domain/errors.py: the exceptions that the inspection package raises,
-- and those of the platform that pass through it.
use property_community_agent.Base.{ℕ, String, List, Text}
use property_community_agent.Platform.ConfirmationPort.{PortError}
use property_community_agent.Inspection.Enums.{TaskStatus, TaskAction}
use property_community_agent.Inspection.EventEnums.{EventStatus, EventAction}

pub data InspectionError : Type 0 where
  validation_error forbidden : String → InspectionError
  not_found idempotency_conflict confirmation_required handover_required : InspectionError
  supplement_reason_required : InspectionError
  invalid_task_transition : TaskStatus → TaskAction → List TaskAction → InspectionError
  invalid_event_transition : EventStatus → EventAction → List EventAction → InspectionError
  version_conflict : ℕ → InspectionError
  plan_conflict : Text → InspectionError
  port_error : PortError → InspectionError
  corrupt_snapshot : InspectionError
