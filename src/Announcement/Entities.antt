-- ===== src/Announcement/Entities.antt =====
-- src/property_agent/announcement/domain/entities.py with the enumerations of domain/enums.py and the
-- refusals of domain/errors.py. A caller passes the moment of every change. Two members of an
-- enumeration are compared by their position.
pub mod Lifecycle
use property_community_agent.Base.{
  ℕ, ◌+◌, String, Bool, true, false, ◌&&◌, Option, none, some, List, [], ◌∷◌, ◌==◌, if◌then◌else◌,
  Text, Result, ok, err,
}

pub data AnnouncementCategory : Type 0 where
  general maintenance safety emergency : AnnouncementCategory

pub data AnnouncementStatus : Type 0 where
  draft pending_review approved rejected published archived withdrawn : AnnouncementStatus

pub data AnnouncementAction : Type 0 where
  create edit submit_review approve reject publish schedule withdraw archive : AnnouncementAction

pub data AnnouncementError : Type 0 where
  invalid_transition :
      AnnouncementStatus → AnnouncementAction → List AnnouncementAction → AnnouncementError

abbrev pub status_index : AnnouncementStatus → ℕ
status_index draft = 0
status_index pending_review = 1
status_index approved = 2
status_index rejected = 3
status_index published = 4
status_index archived = 5
status_index withdrawn = 6

abbrev pub action_index : AnnouncementAction → ℕ
action_index create = 0
action_index edit = 1
action_index submit_review = 2
action_index approve = 3
action_index reject = 4
action_index publish = 5
action_index schedule = 6
action_index withdraw = 7
action_index archive = 8

abbrev pub status_eq : AnnouncementStatus → AnnouncementStatus → Bool
status_eq a b = status_index a == status_index b

abbrev pub action_eq : AnnouncementAction → AnnouncementAction → Bool
action_eq a b = action_index a == action_index b

-- An audience condition is a dictionary from a field to its values.
pub record Announcement : Type 0 where
  pub id : ℕ
  pub community_id : ℕ
  pub business_no : Text
  pub title : Text
  pub body : Text
  pub category : AnnouncementCategory
  pub audience_condition : List (String × List Text)
  pub created_by : ℕ
  pub create_idempotency_key : Text
  pub scheduled_at : Option ℕ
  pub status : AnnouncementStatus
  pub version : ℕ
  pub manager_recheck_required : Bool
  pub published_at : Option ℕ
  pub withdrawn_at : Option ℕ
  pub created_at : ℕ
  pub updated_at : ℕ

-- `TRANSITIONS`, in its order.
abbrev pub transition_table : List (AnnouncementStatus × AnnouncementAction × AnnouncementStatus)
transition_table =
    (draft, submit_review, pending_review)
    ∷ (rejected, submit_review, pending_review)
    ∷ (pending_review, approve, approved)
    ∷ (pending_review, reject, rejected)
    ∷ (approved, publish, published)
    ∷ (published, withdraw, withdrawn)
    ∷ (published, archive, archived)
    ∷ []

abbrev pub find_target :
    AnnouncementStatus
    → AnnouncementAction
    → List (AnnouncementStatus × AnnouncementAction × AnnouncementStatus)
    → Option AnnouncementStatus
find_target s a [] = none
find_target s a ((from, action, to) ∷ rest) =
    if status_eq from s && action_eq action a then some to else find_target s a rest

-- `TRANSITIONS.get((status, action))`.
abbrev pub target_of : AnnouncementStatus → AnnouncementAction → Option AnnouncementStatus
target_of s a = find_target s a transition_table

abbrev pub actions_from :
    AnnouncementStatus
    → List (AnnouncementStatus × AnnouncementAction × AnnouncementStatus)
    → List AnnouncementAction
actions_from s [] = []
actions_from s ((from, action, _) ∷ rest) =
    let more = actions_from s rest in if status_eq from s then action ∷ more else more

-- `state_actions`.
abbrev pub state_actions : Announcement → List AnnouncementAction
state_actions m = actions_from m.status transition_table

-- The writes of `transition` once the target is found.
abbrev pub apply_transition :
    AnnouncementAction → AnnouncementStatus → ℕ → Announcement → Announcement
apply_transition action target now m = record m {
  status = target;
  version = m.version + 1;
  updated_at = now;
  published_at = if action_eq action publish then some now else m.published_at;
  withdrawn_at = if action_eq action withdraw then some now else m.withdrawn_at;
}

abbrev transition_to :
    Option AnnouncementStatus
    → AnnouncementAction
    → ℕ
    → Announcement
    → Result AnnouncementError Announcement
transition_to none action now m = err (invalid_transition m.status action (state_actions m))
transition_to (some target) action now m = ok (apply_transition action target now m)

-- `transition`.
unfoldable pub transition :
    AnnouncementAction → ℕ → Announcement → Result AnnouncementError Announcement
transition action now m = transition_to (target_of m.status action) action now m

-- `schedule`.
unfoldable pub schedule_at : ℕ → ℕ → Announcement → Result AnnouncementError Announcement
schedule_at moment now m =
    if status_eq m.status approved
    then ok (record m { scheduled_at = some moment; version = m.version + 1; updated_at = now })
    else err (invalid_transition m.status schedule (state_actions m))

pub record Content : Type 0 where
  pub title : Text
  pub body : Text
  pub category : AnnouncementCategory
  pub audience_condition : List (String × List Text)

abbrev can_edit : AnnouncementStatus → Bool
can_edit draft = true
can_edit rejected = true
can_edit _ = false

-- `edit`.
unfoldable pub edit_content : Content → ℕ → Announcement → Result AnnouncementError Announcement
edit_content c now m =
    if can_edit m.status
    then ok (record m {
      title = c.title;
      body = c.body;
      category = c.category;
      audience_condition = c.audience_condition;
      version = m.version + 1;
      updated_at = now;
    })
    else err (invalid_transition m.status edit [])
