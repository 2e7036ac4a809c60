-- ===== src/Announcement/Entities/Lifecycle.antt =====
-- What happens to an announcement of announcement/domain/entities.py under any sequence of changes.
use property_community_agent.Base.{
  ℕ, ◌≡◌, refl, ◌∙◌, subst, sym, inl, inr, Bool, true, false, some, List, [], ◌∷◌, ◌++◌, ap, Result,
  ok, err, arith, Option-cases,
}
use property_community_agent.Announcement.Entities.{
  AnnouncementError, AnnouncementStatus, draft, pending_review, approved, rejected, published,
  archived, withdrawn, AnnouncementAction, submit_review, approve, reject, publish, withdraw,
  archive, Announcement, Content, target_of, transition, schedule_at, edit_content,
}

-- One change, with the moment it is made.
pub data Step : Type 0 where
  act : AnnouncementAction → ℕ → Step
  set_schedule : ℕ → ℕ → Step
  rewrite_content : Content → ℕ → Step

abbrev pub or_same : Announcement → Result AnnouncementError Announcement → Announcement
or_same m (ok m') = m'
or_same m (err _) = m

-- A refused change leaves the announcement as it is.
abbrev pub apply_step : Step → Announcement → Announcement
apply_step (act a now) m = or_same m (transition a now m)
apply_step (set_schedule moment now) m = or_same m (schedule_at moment now m)
apply_step (rewrite_content c now) m = or_same m (edit_content c now m)

abbrev pub apply_steps : List Step → Announcement → Announcement
apply_steps [] m = m
apply_steps (x ∷ xs) m = apply_steps xs (apply_step x m)

-- Approved, or gone on from there.
abbrev pub is_settled : AnnouncementStatus → Bool
is_settled approved = true
is_settled published = true
is_settled withdrawn = true
is_settled archived = true
is_settled _ = false

-- Two announcements with the same content.
pub record SameContent (m m' : Announcement) : Type 0 where
  pub same_title : m'.title ≡ m.title
  pub same_body : m'.body ≡ m.body
  pub same_category : m'.category ≡ m.category
  pub same_audience : m'.audience_condition ≡ m.audience_condition

settled_step :
    (x : Step) (m : Announcement)
    → is_settled m.status ≡ true
    → (is_settled (apply_step x m).status ≡ true) × SameContent m (apply_step x m)
unfolding transition schedule_at edit_content
settled_step (act a now) m e = (ground arith, ground arith)
settled_step (set_schedule moment now) m e = (ground arith, ground arith)
settled_step (rewrite_content c now) m e = (ground arith, ground arith)

-- From its approval on, whatever changes are tried, an announcement keeps the title, the text, the
-- category and the audience that were approved: what is published is what was reviewed.
pub approved_content_stays :
    (xs : List Step) (m : Announcement)
    → is_settled m.status ≡ true
    → (is_settled (apply_steps xs m).status ≡ true) × SameContent m (apply_steps xs m)
approved_content_stays [] m e =
    (e, record { same_title = refl; same_body = refl; same_category = refl; same_audience = refl })
approved_content_stays (x ∷ xs) m e =
    let (d, one) = settled_step x m e in
    let (f, rest) = approved_content_stays xs (apply_step x m) d in
    (
      f,
      record {
        same_title = rest.same_title ∙ one.same_title;
        same_body = rest.same_body ∙ one.same_body;
        same_category = rest.same_category ∙ one.same_category;
        same_audience = rest.same_audience ∙ one.same_audience;
      },
    )

-- The diagram of `TRANSITIONS`.
pub data Edge : AnnouncementStatus → AnnouncementAction → AnnouncementStatus → Type 0 where
  submitted : Edge draft submit_review pending_review
  resubmitted : Edge rejected submit_review pending_review
  passed : Edge pending_review approve approved
  refused : Edge pending_review reject rejected
  issued : Edge approved publish published
  taken_back : Edge published withdraw withdrawn
  filed : Edge published archive archived

ruleset edges = (submitted, resubmitted, passed, refused, issued, taken_back, filed)

target_of-Edge :
    (s : AnnouncementStatus) (a : AnnouncementAction) (t : AnnouncementStatus)
    → target_of s a ≡ some t
    → Edge s a t
target_of-Edge s a t h = grind (arith, edges)

-- Among the steps is one of this action that takes effect, along the diagram from the status reached
-- before it, and then `Rest` holds of what it leads to and of the steps after it.
abbrev pub Takes :
    AnnouncementAction → (Announcement → List Step → Type 0) → Announcement → List Step → Type 0
Takes a Rest m xs =
    (before : List Step) × (now : ℕ) × (after : List Step) × (xs ≡ before ++ act a now ∷ after)
    × Edge (apply_steps before m).status a (apply_step (act a now) (apply_steps before m)).status
    × Rest (apply_step (act a now) (apply_steps before m)) after

abbrev pub AnySteps : Announcement → List Step → Type 0
AnySteps m xs = Unit

-- Submitted, later approved, and later published, each with effect.
abbrev pub IsReviewed : Announcement → List Step → Type 0
IsReviewed = Takes submit_review (Takes approve (Takes publish AnySteps))

-- The steps that lead from a status to a publication.
abbrev Needs : AnnouncementStatus → Announcement → List Step → Type 0
Needs draft m xs = IsReviewed m xs
Needs rejected m xs = IsReviewed m xs
Needs pending_review m xs = Takes approve (Takes publish AnySteps) m xs
Needs approved m xs = Takes publish AnySteps m xs
Needs published m xs = Unit
Needs withdrawn m xs = ⊥
Needs archived m xs = ⊥

Takes-later :
    (a : AnnouncementAction) (Rest : Announcement → List Step → Type 0) (x : Step)
    (m : Announcement) {xs : List Step}
    → Takes a Rest (apply_step x m) xs
    → Takes a Rest m (x ∷ xs)
Takes-later a Rest x m (before, now, after, e, edge, rest) =
    (x ∷ before, now, after, ap (λ (ys : List Step). x ∷ ys) e, edge, rest)

-- What is taken after another step is taken.
Takes-skip :
    (a : AnnouncementAction) (Rest : Announcement → List Step → Type 0) (before : List Step)
    (x : Step) (m : Announcement) {after : List Step}
    → Takes a Rest (apply_step x (apply_steps before m)) after
    → Takes a Rest m (before ++ x ∷ after)
Takes-skip a Rest [] x m n = Takes-later a Rest x m n
Takes-skip a Rest (y ∷ before) x m n =
    Takes-later a Rest y m (Takes-skip a Rest before x (apply_step y m) n)

Takes-next :
    (a b : AnnouncementAction) (Rest : Announcement → List Step → Type 0) (m : Announcement)
    {xs : List Step}
    → Takes a (Takes b Rest) m xs
    → Takes b Rest m xs
Takes-next a b Rest m (before, now, after, e, edge, n) =
    subst (Takes b Rest m) (sym e) (Takes-skip b Rest before (act a now) m n)

Needs-later :
    (s : AnnouncementStatus) (x : Step) (m : Announcement) (xs : List Step)
    → Needs s (apply_step x m) xs
    → Needs s m (x ∷ xs)
Needs-later draft x m xs n =
    Takes-later submit_review (Takes approve (Takes publish AnySteps)) x m n
Needs-later rejected x m xs n =
    Takes-later submit_review (Takes approve (Takes publish AnySteps)) x m n
Needs-later pending_review x m xs n = Takes-later approve (Takes publish AnySteps) x m n
Needs-later approved x m xs n = Takes-later publish AnySteps x m n
Needs-later published x m xs n = tt
Needs-later withdrawn x m xs n = n
Needs-later archived x m xs n = n

Needs-Edge :
    {s t : AnnouncementStatus} {a : AnnouncementAction} (now : ℕ) (m : Announcement)
    (xs : List Step)
    → Edge s a t
    → Edge m.status a (apply_step (act a now) m).status
    → Needs t (apply_step (act a now) m) xs
    → Needs s m (act a now ∷ xs)
Needs-Edge now m xs submitted edge n = ([], now, xs, refl, edge, n)
Needs-Edge now m xs resubmitted edge n = ([], now, xs, refl, edge, n)
Needs-Edge now m xs passed edge n = ([], now, xs, refl, edge, n)
Needs-Edge now m xs refused edge n =
    Takes-later approve (Takes publish AnySteps) (act reject now) m
      (Takes-next submit_review approve (Takes publish AnySteps) (apply_step (act reject now) m) n)
Needs-Edge now m xs issued edge n = ([], now, xs, refl, edge, n)
Needs-Edge now m xs taken_back edge n = absurd n
Needs-Edge now m xs filed edge n = absurd n

Needs-step :
    (x : Step) (xs : List Step) (m : Announcement)
    → Needs (apply_step x m).status (apply_step x m) xs
    → Needs m.status m (x ∷ xs)
unfolding transition schedule_at edit_content
Needs-step (act a now) xs m n = elim (Option-cases (target_of m.status a)) [
  | inl e ↦
      Needs-later m.status (act a now) m xs
        (subst (λ (s : AnnouncementStatus). Needs s (apply_step (act a now) m) xs) (ground arith) n)
  | inr (t, e) ↦
      let edge = target_of-Edge m.status a t e in
      let reached : (apply_step (act a now) m).status ≡ t = ground arith in
      Needs-Edge now m xs edge (subst (Edge m.status a) (sym reached) edge)
        (subst (λ (s : AnnouncementStatus). Needs s (apply_step (act a now) m) xs) reached n)
]
Needs-step (set_schedule moment now) xs m n = Needs-later m.status (set_schedule moment now) m xs (
    subst (λ (s : AnnouncementStatus). Needs s (apply_step (set_schedule moment now) m) xs)
      (ground arith) n)
Needs-step (rewrite_content c now) xs m n = Needs-later m.status (rewrite_content c now) m xs (
    subst (λ (s : AnnouncementStatus). Needs s (apply_step (rewrite_content c now) m) xs)
      (ground arith) n)

steps-Needs :
    (xs : List Step) (m : Announcement)
    → (apply_steps xs m).status ≡ published
    → Needs m.status m xs
steps-Needs [] m e = subst (λ (s : AnnouncementStatus). Needs s m []) (sym e) tt
steps-Needs (x ∷ xs) m e = Needs-step x xs m (steps-Needs xs (apply_step x m) e)

-- Whatever changes are tried, a draft is published only if among them, in this order, a submission, an
-- approval and a publication took effect, each from the status and to the status that the diagram
-- gives it.
pub published_needs_review :
    (xs : List Step) (m : Announcement)
    → m.status ≡ draft
    → (apply_steps xs m).status ≡ published
    → IsReviewed m xs
published_needs_review xs m d e =
    subst (λ (s : AnnouncementStatus). Needs s m xs) d (steps-Needs xs m e)
