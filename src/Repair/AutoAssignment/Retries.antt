-- ===== src/Repair/AutoAssignment/Retries.antt =====
-- The facade of auto_assignment.py when a creation is repeated.
use property_community_agent.Repair.WorkOrder.{WorkOrder}
