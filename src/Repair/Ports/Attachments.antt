-- ===== src/Repair/Ports/Attachments.antt =====
-- What `ensure_usable` of shared_ports.py lets through.
use property_community_agent.Base.{
  ℕ, ◌≤◌, ◌≡◌, true, false, some, List, [], ◌∷◌, str_eq, find, length, ok, arith, All, Option-cases,
  inl, inr,
}
use property_community_agent.Platform.Tables.{Attachment}
use property_community_agent.Repair.Repository.{RepairDb}
use property_community_agent.Repair.Ports.{
  has_attachment_id, is_allowed_content_type, check_attachments, has_duplicate,
  attachment_max_size_bytes, ensure_usable,
}

-- An attachment of this uploader and community, uploaded, of an allowed type and size.
abbrev pub IsUsable : ℕ → ℕ → List Attachment → ℕ → Type 0
IsUsable actor community t i =
    (a : Attachment) × (find (has_attachment_id i) t ≡ some a)
    × (a.community_id ≡ community)
    × (a.uploader_id ≡ actor)
    × (str_eq a.status "UPLOADED" ≡ true)
    × (is_allowed_content_type a.content_type ≡ true)
    × (a.size_bytes ≤ attachment_max_size_bytes)

check_attachments-ok :
    (actor community : ℕ) (t : List Attachment) (is : List ℕ)
    → check_attachments actor community t is ≡ ok tt
    → All (IsUsable actor community t) is
unfolding check_attachments
check_attachments-ok actor community t [] h = tt
check_attachments-ok actor community t (i ∷ is) h =
    elim (Option-cases (find (has_attachment_id i) t)) [
      | inl e ↦ ground arith
      | inr (a, e) ↦ (
        (a, e, ground arith, ground arith, ground arith, ground arith, ground arith),
        check_attachments-ok actor community t is (ground arith),
      )
    ]

-- A request's attachments that pass are at most nine, all different and all usable, and the check
-- writes nothing.
pub ensure_usable-ok :
    (is : List ℕ) (actor community : ℕ) (s : RepairDb) {p : Unit {0} × RepairDb}
    → ensure_usable is actor community s ≡ ok p
    → (p.1 ≡ s)
      × (length is ≤ 9)
      × (has_duplicate is ≡ false)
      × All (IsUsable actor community s.platform.attachments) is
unfolding ensure_usable
ensure_usable-ok is actor community s {p} h = (
  ground arith,
  ground arith,
  ground arith,
  check_attachments-ok actor community s.platform.attachments is (ground arith),
)
