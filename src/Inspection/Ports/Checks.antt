-- ===== src/Inspection/Ports/Checks.antt =====
-- The checks of staff and attachments in inspection/infrastructure/shared_ports.py write nothing.
use property_community_agent.Base.{ℕ, ◌≡◌, List, ok, arith}
use property_community_agent.Inspection.Repository.{InspectionDb}
use property_community_agent.Inspection.Ports.{ensure_security_staff, ensure_usable}

pub ensure_security_staff-ok :
    (user community : ℕ) (s : InspectionDb) {p : Unit {0} × InspectionDb}
    → ensure_security_staff user community s ≡ ok p
    → p.1 ≡ s
unfolding ensure_security_staff
ensure_security_staff-ok user community s h = ground arith

pub ensure_usable-ok :
    (is : List ℕ) (actor community : ℕ) (s : InspectionDb) {p : Unit {0} × InspectionDb}
    → ensure_usable is actor community s ≡ ok p
    → p.1 ≡ s
unfolding ensure_usable
ensure_usable-ok is actor community s h = ground arith
