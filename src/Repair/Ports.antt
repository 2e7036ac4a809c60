-- ===== src/Repair/Ports.antt =====
-- The database-backed ports of src/property_agent/repair/infrastructure/shared_ports.py. A query of
-- several rows is read in the order of the table.
pub mod Attachments
use property_community_agent.Base.{
  ℕ, String, Bool, true, false, not, ◌&&◌, ◌||◌, Option, none, some, List, [], ◌∷◌, ◌++◌, map, leb,
  ltb, ◌==◌, if◌then◌else◌, str_eq, any, find, select, length, mem_id, Text, chars, Result, ok, err,
  Action, ◌>>=◌, ◌>>◌, pure, raise, require, modify,
}
use property_community_agent.Platform.Tables.{
  User, UserRole, House, HouseBinding, Attachment, AuditLog, SummaryValue, HandoverTicket,
  PlatformDb,
}
use property_community_agent.Platform.ConfirmationPort.{
  FenceSetting, PortError, consume_confirmation,
}
use property_community_agent.Platform.Outbox.{Notice, enqueue}
use property_community_agent.Repair.Errors.{RepairError, validation_error, forbidden, port_error}
use property_community_agent.Repair.Repository.{RepairDb}

abbrev pub translated :
    RepairDb → Result PortError (Unit {0} × PlatformDb) → Result RepairError (Unit {0} × RepairDb)
translated s (ok (_, p)) = ok (tt, record s { platform = p })
translated s (err e) = err (port_error e)

-- `uow.confirmations.consume`, with the platform's exceptions passed through.
abbrev pub consume :
    FenceSetting → Option ℕ → Text → ℕ → String → ℕ → ℕ → Action RepairDb RepairError (Unit {0})
consume f approval_ref token actor action hash now s =
    translated s (consume_confirmation f approval_ref token actor action hash now s.platform)

abbrev pub has_house_id : ℕ → House → Bool
has_house_id i h = h.id == i

abbrev pub is_community_wide : String → Bool
is_community_wide r = str_eq r "CUSTOMER_SERVICE" || (str_eq r "MANAGER" || str_eq r "SYSTEM_ADMIN")

abbrev pub is_active_in : ℕ → ℕ → User → Bool
is_active_in i community u = u.id == i && (u.community_id == community && str_eq u.status "ACTIVE")

abbrev has_role_of : (String → Bool) → ℕ → UserRole → Bool
has_role_of p i r = r.user_id == i && p r.role

-- `_has_community_wide_role`: roles are read from the database, not from the request.
unfoldable pub has_community_wide_role : ℕ → ℕ → PlatformDb → Bool
has_community_wide_role actor community p =
    any (has_role_of is_community_wide actor) p.user_roles
    && any (is_active_in actor community) p.users

abbrev pub is_active_binding : ℕ → ℕ → HouseBinding → Bool
is_active_binding actor house b =
    b.user_id == actor && (b.house_id == house && str_eq b.status "ACTIVE")

abbrev house_in : Option House → ℕ → Bool
house_in none community = false
house_in (some h) community = h.community_id == community

-- `SqlAlchemyHouseAccessPort.ensure_access`.
unfoldable pub ensure_access : ℕ → ℕ → ℕ → Action RepairDb RepairError (Unit {0})
unfolding has_community_wide_role
ensure_access actor community house s =
    if house_in (find (has_house_id house) s.platform.houses) community
    then if has_community_wide_role actor community s.platform
        || any (is_active_binding actor house) s.platform.house_bindings
      then ok (tt, s)
      else err (forbidden "You are not bound to this house.")
    else err (forbidden "The house does not exist in the current community.")

abbrev is_repair_worker : String → Bool
is_repair_worker r = str_eq r "REPAIR_WORKER"

-- `ensure_repair_worker`.
unfoldable pub ensure_repair_worker : ℕ → ℕ → Action RepairDb RepairError (Unit {0})
ensure_repair_worker user community s =
    require
      (any (is_active_in user community) s.platform.users
        && any (has_role_of is_repair_worker user) s.platform.user_roles)
      (validation_error "The assignee is not an active repair worker in this community.") s

abbrev is_duty_role : String → Bool
is_duty_role r = str_eq r "CUSTOMER_SERVICE" || str_eq r "MANAGER"

abbrev pub is_on_duty : ℕ → List UserRole → User → Bool
is_on_duty community roles u =
    is_active_in u.id community u && any (has_role_of is_duty_role u.id) roles

abbrev user_id : User → ℕ
user_id u = u.id

-- `list_duty_staff`: each person once, however many of the roles they have.
unfoldable pub list_duty_staff : ℕ → RepairDb → List ℕ
list_duty_staff community s =
    map user_id (select (is_on_duty community s.platform.user_roles) s.platform.users)

abbrev pub max_attachments_per_request : ℕ
max_attachments_per_request = 9

abbrev pub attachment_max_size_bytes : ℕ
attachment_max_size_bytes = 10485760

unfoldable pub is_allowed_content_type : String → Bool
is_allowed_content_type t =
    str_eq t "image/jpeg"
    || (str_eq t "image/png"
        || (str_eq t "image/webp"
            || (str_eq t "image/heic" || (str_eq t "video/mp4" || str_eq t "application/pdf"))))

abbrev pub has_attachment_id : ℕ → Attachment → Bool
has_attachment_id i a = a.id == i

-- The checks of one attachment that exists.
unfoldable pub check_attachment : ℕ → ℕ → Attachment → Result RepairError (Unit {0})
check_attachment actor community a =
    if a.community_id == community
    then if a.uploader_id == actor
      then if str_eq a.status "UPLOADED"
        then if is_allowed_content_type a.content_type
          then if ltb attachment_max_size_bytes a.size_bytes
            then err (validation_error "The attachment exceeds the maximum allowed size.")
            else ok tt
          else err (validation_error "The attachment type is not supported.")
        else err (validation_error "The attachment upload has not completed.")
      else err (forbidden "You can only attach files that you uploaded.")
    else err (forbidden "The attachment belongs to another community.")

abbrev check_found : Option Attachment → ℕ → ℕ → Result RepairError (Unit {0})
check_found none actor community = err (validation_error "Some attachments do not exist.")
check_found (some a) actor community = check_attachment actor community a

-- The loop over the attachments, which stops at the first refusal.
unfoldable pub check_attachments : ℕ → ℕ → List Attachment → List ℕ → Result RepairError (Unit {0})
unfolding check_attachment
check_attachments actor community t [] = ok tt
check_attachments actor community t (i ∷ is) =
    let rest = check_attachments actor community t is in
    elim (check_found (find (has_attachment_id i) t) actor community) [
      | ok _ ↦ rest
      | err e ↦ err e
    ]

unfoldable pub has_duplicate : List ℕ → Bool
has_duplicate [] = false
has_duplicate (i ∷ is) = mem_id i is || has_duplicate is

abbrev pub exists_in : List Attachment → ℕ → Bool
exists_in t i = any (has_attachment_id i) t

unfoldable pub all_exist : List Attachment → List ℕ → Bool
all_exist t [] = true
all_exist t (i ∷ is) = exists_in t i && all_exist t is

abbrev checked : RepairDb → Result RepairError (Unit {0}) → Result RepairError (Unit {0} × RepairDb)
checked s (ok _) = ok (tt, s)
checked s (err e) = err e

-- `SqlAlchemyAttachmentPort.ensure_usable`.
unfoldable pub ensure_usable : List ℕ → ℕ → ℕ → Action RepairDb RepairError (Unit {0})
unfolding check_attachments has_duplicate all_exist
ensure_usable is actor community s =
    if has_duplicate is
    then err (validation_error "Duplicate attachment IDs are not allowed.")
    else if leb (length is) max_attachments_per_request
    then if all_exist s.platform.attachments is
      then checked s (check_attachments actor community s.platform.attachments is)
      else err (validation_error "Some attachments do not exist.")
    else err (validation_error "At most 9 attachments are allowed.")
