-- ===== src/Inspection/Ports.antt =====
-- The database-backed ports of src/property_agent/inspection/infrastructure/shared_ports.py. A query of
-- several rows is read in the order of the table. The limits and the content types of attachments
-- are those of the repair package's port.
pub mod Confirmed
pub mod Checks
use property_community_agent.Base.{
  ℕ, String, Bool, true, false, ◌&&◌, ◌||◌, Option, none, some, List, [], ◌∷◌, ◌++◌, map, leb, ltb,
  ◌==◌, if◌then◌else◌, str_eq, any, find, select, length, Text, chars, strip, uuid_text,
  has_content, str_append, Result, ok, err, Action, ◌>>=◌, ◌>>◌, pure, raise, require, modify,
}
use property_community_agent.Platform.Tables.{
  User, UserRole, Attachment, HandoverTicket, PlatformDb,
}
use property_community_agent.Platform.ConfirmationPort.{
  ExecutionSource, human, agent, FenceSetting, PortError, consume_confirmation,
}
use property_community_agent.Platform.Outbox.{Notice, enqueue}
use property_community_agent.Repair.Ports.{
  is_active_in, has_attachment_id, is_allowed_content_type, has_duplicate, all_exist,
  attachment_max_size_bytes, max_attachments_per_request,
}
use property_community_agent.Inspection.Errors.{
  InspectionError, validation_error, forbidden, confirmation_required, port_error,
}
use property_community_agent.Inspection.Commands.{RequestContext, Confirmation}
use property_community_agent.Inspection.Repository.{InspectionDb}

abbrev pub translated :
    InspectionDb
    → Result PortError (Unit {0} × PlatformDb)
    → Result InspectionError (Unit {0} × InspectionDb)
translated s (ok (_, p)) = ok (tt, record s { platform = p })
translated s (err e) = err (port_error e)

-- `uow.confirmations.consume`, with the platform's exceptions passed through.
unfoldable pub consume :
    FenceSetting
    → Option ℕ
    → Text
    → ℕ
    → String
    → ℕ
    → ℕ
    → Action InspectionDb InspectionError (Unit {0})
consume f approval_ref token actor action hash now s =
    translated s (consume_confirmation f approval_ref token actor action hash now s.platform)

-- `not token or not token.strip()`.
abbrev pub token_text : Option Text → Text
token_text none = []
token_text (some t) = t

-- `consume_agent_write`: a human's request passes, the agent's wants an approved token.
unfoldable pub consume_agent_write :
    FenceSetting
    → RequestContext
    → Confirmation
    → String
    → ℕ
    → ℕ
    → Action InspectionDb InspectionError (Unit {0})
unfolding consume
consume_agent_write f c k operation hash now = elim c.execution_source [
  | human ↦ pure tt
  | agent ↦ do
    require (has_content (token_text k.confirmation_token)) confirmation_required
    consume f k.approval_ref (strip (token_text k.confirmation_token)) c.actor_id operation hash now
]

abbrev has_role_of : (String → Bool) → ℕ → UserRole → Bool
has_role_of p i r = r.user_id == i && p r.role

abbrev is_security_guard : String → Bool
is_security_guard r = str_eq r "SECURITY_GUARD"

abbrev pub is_security_staff : ℕ → ℕ → InspectionDb → Bool
is_security_staff user community s =
    any (is_active_in user community) s.platform.users
    && any (has_role_of is_security_guard user) s.platform.user_roles

-- `ensure_security_staff`.
unfoldable pub ensure_security_staff : ℕ → ℕ → Action InspectionDb InspectionError (Unit {0})
ensure_security_staff user community s =
    require (is_security_staff user community s)
      (validation_error "The assignee is not an active security staff member in this community.") s

abbrev is_duty_role : String → Bool
is_duty_role r = str_eq r "SECURITY_GUARD" || str_eq r "MANAGER"

abbrev pub is_on_duty : ℕ → List UserRole → User → Bool
is_on_duty community roles u =
    is_active_in u.id community u && any (has_role_of is_duty_role u.id) roles

abbrev user_id : User → ℕ
user_id u = u.id

-- `list_duty_users`: each person once, however many of the roles they have.
unfoldable pub list_duty_users : ℕ → InspectionDb → List ℕ
list_duty_users community s =
    map user_id (select (is_on_duty community s.platform.user_roles) s.platform.users)

-- The checks of one attachment that exists.
unfoldable pub check_attachment : ℕ → ℕ → Attachment → Result InspectionError (Unit {0})
check_attachment actor community a =
    if a.community_id == community
    then if a.uploader_id == actor
      then if str_eq a.status "UPLOADED"
        then if is_allowed_content_type a.content_type
          then if ltb attachment_max_size_bytes a.size_bytes
            then err (validation_error "The attachment exceeds the maximum allowed size.")
            else ok tt
          else err (validation_error "The attachment type is not supported.")
        else err (validation_error "The attachment upload has not completed.")
      else err (forbidden "You can only attach files that you uploaded.")
    else err (forbidden "The attachment belongs to another community.")

abbrev check_found : Option Attachment → ℕ → ℕ → Result InspectionError (Unit {0})
check_found none actor community = err (validation_error "Some attachments do not exist.")
check_found (some a) actor community = check_attachment actor community a

-- The loop over the attachments, which stops at the first refusal.
unfoldable pub check_attachments :
    ℕ → ℕ → List Attachment → List ℕ → Result InspectionError (Unit {0})
unfolding check_attachment
check_attachments actor community t [] = ok tt
check_attachments actor community t (i ∷ is) =
    let rest = check_attachments actor community t is in
    elim (check_found (find (has_attachment_id i) t) actor community) [
      | ok _ ↦ rest
      | err e ↦ err e
    ]

abbrev checked :
    InspectionDb
    → Result InspectionError (Unit {0})
    → Result InspectionError (Unit {0} × InspectionDb)
checked s (ok _) = ok (tt, s)
checked s (err e) = err e

-- `SqlAlchemyAttachmentPort.ensure_usable`.
unfoldable pub ensure_usable : List ℕ → ℕ → ℕ → Action InspectionDb InspectionError (Unit {0})
unfolding check_attachments has_duplicate all_exist
ensure_usable is actor community s =
    if has_duplicate is
    then err (validation_error "Duplicate attachment IDs are not allowed.")
    else if leb (length is) max_attachments_per_request
    then if all_exist s.platform.attachments is
      then checked s (check_attachments actor community s.platform.attachments is)
      else err (validation_error "Some attachments do not exist.")
    else err (validation_error "At most 9 attachments are allowed.")

-- The text of `_MESSAGE_TEMPLATES` and `_template`.
unfoldable pub template : String → String × String
template e =
    if str_eq e "HIGH_RISK_EVENT"
    then ("高风险安防事件待处置", "收到一条高风险安防事件，请立即到场核实并按预案处置。")
    else if str_eq e "EVENT_ASSIGN"
    then ("安防事件已分派给你", "有一条安防事件已分派给你，请尽快处置并上报。")
    else (str_append "安防事件 " e, str_append "安防事件发生：" (str_append e "。"))

abbrev pub message_key : ℕ → String → ℕ → Text → Text
message_key resource event receiver request_id =
    chars "INSPECTION:"
    ++ (uuid_text resource
        ++ (chars ":"
            ++ (chars event ++ (chars ":" ++ (uuid_text receiver ++ (chars ":" ++ request_id))))))

-- `PlatformMessagePort.enqueue`.
abbrev pub notice : ℕ → String → ℕ → Text → Notice
notice resource event receiver request_id = record {
  receiver_id = receiver;
  business_type = "INSPECTION";
  resource_id = uuid_text resource;
  title = (template event).0;
  body = (template event).1;
  idempotency_key = message_key resource event receiver request_id;
}

abbrev pub escalation_ticket : ℕ → ℕ → ℕ → HandoverTicket
escalation_ticket new_id community event = record {
  id = new_id;
  community_id = community;
  requester_id = none;
  resource_type = "EVENT";
  resource_id = some event;
  source = "INSPECTION";
  queue = "SECURITY";
  reason = "HIGH_RISK";
  status = "PENDING";
}

-- `escalate_high_risk`.
unfoldable pub escalate_high_risk : ℕ → ℕ → ℕ → InspectionDb → InspectionDb
escalate_high_risk new_id community event s = record s {
  platform = record s.platform {
    handover_tickets = s.platform.handover_tickets ++ escalation_ticket new_id community event ∷ [];
  };
}
