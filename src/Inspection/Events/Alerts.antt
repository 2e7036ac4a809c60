-- ===== src/Inspection/Events/Alerts.antt =====
-- Who hears of an event of high risk: the last step of `create_event` of
-- inspection/application/service.py, through the outbox and the handover tickets.
use property_community_agent.Base.{
  ℕ, ◌≡◌, ◌≢◌, refl, ◌∙◌, subst, sym, inl, inr, Bool, true, ◌&&◌, some, List, [], ◌∷◌, any, find,
  Text, str_eq, is_id, text_eq_refl, arith, All, Option-cases, Bool-cases, any-append,
}
use property_community_agent.Platform.Tables.{Message, HandoverTicket}
use property_community_agent.Platform.Outbox.{
  Notice, has_message_key, storage_key, new_message, enqueue,
}
use property_community_agent.Inspection.EventEnums.{high_risk, risk_eq}
use property_community_agent.Inspection.Event.{SecurityEvent}
use property_community_agent.Inspection.Commands.{RequestContext}
use property_community_agent.Inspection.Repository.{InspectionDb}
use property_community_agent.Inspection.Ports.{
  list_duty_users, message_key, notice, escalation_ticket, escalate_high_risk,
}
use property_community_agent.Inspection.Service.{Environment}
use property_community_agent.Inspection.Events.{
  alert, alert_all, alert_or_escalate, notify_high_risk,
}

module _ (sha : Text → Text) (new_id now : ℕ) (n : Notice) where
  find-any :
      (p : Message → Bool) (t : List Message) {m : Message} → find p t ≡ some m → any p t ≡ true
  find-any p [] h = cc
  find-any p (x ∷ t) {m} h = ground (arith, find-any p t {m = m})

  enqueue_keeps :
      (key : Text) (t : List Message)
      → any (has_message_key key) t ≡ true
      → any (has_message_key key) (enqueue sha new_id now n t).1 ≡ true
  unfolding enqueue
  enqueue_keeps key t h =
      let stored = storage_key sha n.idempotency_key in
      elim (Option-cases (find (has_message_key stored) t)) [
        | inr (m, e) ↦ ground arith
        | inl e ↦
            ground
              (arith, any-append (has_message_key key) t (new_message new_id now stored n ∷ []))
      ]

  enqueue_has :
      (t : List Message)
      → any (has_message_key (storage_key sha n.idempotency_key)) (enqueue sha new_id now n t).1
        ≡ true
  unfolding enqueue
  enqueue_has t =
      let stored = storage_key sha n.idempotency_key in
      elim (Option-cases (find (has_message_key stored) t)) [
        | inr (m, e) ↦ ground (arith, find-any (has_message_key stored) t {m = m})
        | inl e ↦ ground (
          arith,
          any-append (has_message_key stored) t (new_message new_id now stored n ∷ []),
          text_eq_refl stored,
        )
      ]

-- The outbox holds the message of this request about the event to this person.
abbrev pub IsAlerted : Environment → RequestContext → ℕ → InspectionDb → ℕ → Type 0
IsAlerted env c event s user =
    any
      (has_message_key
        (storage_key env.sha256_hex (message_key event "HIGH_RISK_EVENT" user c.request_id)))
      s.platform.messages
    ≡ true

-- The queue of the security desk holds a ticket for the event.
abbrev pub is_escalation : ℕ → HandoverTicket → Bool
is_escalation event h = str_eq h.queue "SECURITY" && is_id h.resource_id event

-- The tokens and the approvals are as they were.
pub record SameConfirmations (s s' : InspectionDb) : Type 0 where
  pub same_tokens : s'.platform.tokens ≡ s.platform.tokens
  pub same_approvals : s'.platform.approvals ≡ s.platform.approvals

module _ (env : Environment) (c : RequestContext) (event : ℕ) where
  alert_keeps :
      (u v : ℕ) (s : InspectionDb)
      → IsAlerted env c event s v
      → IsAlerted env c event (alert env c event u s) v
  unfolding alert
  alert_keeps u v s h =
      enqueue_keeps env.sha256_hex (env.message_id u) env.now
        (notice event "HIGH_RISK_EVENT" u c.request_id)
        (storage_key env.sha256_hex (message_key event "HIGH_RISK_EVENT" v c.request_id))
        s.platform.messages h

  alert_reaches : (u : ℕ) (s : InspectionDb) → IsAlerted env c event (alert env c event u s) u
  unfolding alert
  alert_reaches u s =
      enqueue_has env.sha256_hex (env.message_id u) env.now
        (notice event "HIGH_RISK_EVENT" u c.request_id) s.platform.messages

  alert_all_keeps :
      (us : List ℕ) (v : ℕ) (s : InspectionDb)
      → IsAlerted env c event s v
      → IsAlerted env c event (alert_all env c event us s) v
  unfolding alert_all
  alert_all_keeps [] v s h = h
  alert_all_keeps (u ∷ us) v s h =
      alert_all_keeps us v (alert env c event u s) (alert_keeps u v s h)

  alert_all_reaches :
      (us : List ℕ) (s : InspectionDb) → All (IsAlerted env c event (alert_all env c event us s)) us
  unfolding alert_all
  alert_all_reaches [] s = tt
  alert_all_reaches (u ∷ us) s = (
    alert_all_keeps us u (alert env c event u s) (alert_reaches u s),
    alert_all_reaches us (alert env c event u s),
  )

  alert_all_duty :
      (us : List ℕ) (s : InspectionDb)
      → list_duty_users c.community_id (alert_all env c event us s)
        ≡ list_duty_users c.community_id s
  unfolding alert_all alert list_duty_users
  alert_all_duty [] s = refl
  alert_all_duty (u ∷ us) s = alert_all_duty us (alert env c event u s)

  alert_all_kept :
      (us : List ℕ) (s : InspectionDb)
      → alert_all env c event us s ≡ record s { platform = (alert_all env c event us s).platform }
  unfolding alert_all alert
  alert_all_kept [] s = refl
  alert_all_kept (u ∷ us) s = ground (arith, alert_all_kept us (alert env c event u s))

  alert_or_escalate_kept :
      (us : List ℕ) (s : InspectionDb)
      → alert_or_escalate env c event us s
        ≡ record s { platform = (alert_or_escalate env c event us s).platform }
  unfolding alert_or_escalate escalate_high_risk
  alert_or_escalate_kept [] s = refl
  alert_or_escalate_kept (u ∷ us) s = alert_all_kept (u ∷ us) s

  alert_all-SameConfirmations :
      (us : List ℕ) (s : InspectionDb) → SameConfirmations s (alert_all env c event us s)
  unfolding alert_all alert
  alert_all-SameConfirmations [] s = record { same_tokens = refl; same_approvals = refl }
  alert_all-SameConfirmations (u ∷ us) s =
      let rest = alert_all-SameConfirmations us (alert env c event u s) in
      record { same_tokens = rest.same_tokens; same_approvals = rest.same_approvals }

  alert_or_escalate-SameConfirmations :
      (us : List ℕ) (s : InspectionDb) → SameConfirmations s (alert_or_escalate env c event us s)
  unfolding alert_or_escalate escalate_high_risk
  alert_or_escalate-SameConfirmations [] s = record { same_tokens = refl; same_approvals = refl }
  alert_or_escalate-SameConfirmations (u ∷ us) s = alert_all-SameConfirmations (u ∷ us) s

  alert_or_escalate_duty :
      (us : List ℕ) (s : InspectionDb)
      → list_duty_users c.community_id (alert_or_escalate env c event us s)
        ≡ list_duty_users c.community_id s
  unfolding alert_or_escalate escalate_high_risk list_duty_users
  alert_or_escalate_duty [] s = refl
  alert_or_escalate_duty (u ∷ us) s = alert_all_duty (u ∷ us) s

  escalation_found :
      (s : InspectionDb)
      → any
          (is_escalation event)
          (escalate_high_risk env.ticket_id c.community_id event s).platform.handover_tickets
        ≡ true
  unfolding escalate_high_risk
  escalation_found s = ground (
    arith,
    any-append (is_escalation event) s.platform.handover_tickets
        (escalation_ticket env.ticket_id c.community_id event ∷ []),
  )

  alert_or_escalate_reaches :
      (us : List ℕ) (s : InspectionDb)
      → All (IsAlerted env c event (alert_or_escalate env c event us s)) us
        × (us ≡ []
            → any
                (is_escalation event)
                (alert_or_escalate env c event us s).platform.handover_tickets
              ≡ true)
  unfolding alert_or_escalate
  alert_or_escalate_reaches [] s = (tt, λ e. escalation_found s)
  alert_or_escalate_reaches (u ∷ us) s = (alert_all_reaches (u ∷ us) s, λ e. cc)

-- Who is on duty in the community, after the call.
abbrev pub IsNotified : Environment → RequestContext → ℕ → InspectionDb → Type 0
IsNotified env c event s =
    All (IsAlerted env c event s) (list_duty_users c.community_id s)
    × (list_duty_users c.community_id s ≡ []
        → any (is_escalation event) s.platform.handover_tickets ≡ true)

-- After the notification of an event of high risk everyone on duty has its message in the outbox,
-- and if nobody is on duty, the security desk has a ticket.
pub notify_high_risk-IsNotified :
    (env : Environment) (c : RequestContext) (e : SecurityEvent) (s : InspectionDb)
    → e.risk_level ≡ high_risk
    → IsNotified env c e.id (notify_high_risk env c e s)
unfolding notify_high_risk
notify_high_risk-IsNotified env c e s h =
    let us = list_duty_users c.community_id s in
    let t = alert_or_escalate env c e.id us s in
    let (reached, escalated) = alert_or_escalate_reaches env c e.id us s in
    let same = alert_or_escalate_duty env c e.id us s in
    let done : notify_high_risk env c e s ≡ t = ground arith in
    subst (IsNotified env c e.id) (sym done)
      (subst (All (IsAlerted env c e.id t)) (sym same) reached, λ d. escalated (sym same ∙ d))

-- A notification of an event of another risk does nothing, and no notification touches the events,
-- the tasks or the kept responses.
pub notify_high_risk-kept :
    (env : Environment) (c : RequestContext) (e : SecurityEvent) (s : InspectionDb)
    → (notify_high_risk env c e s ≡ record s { platform = (notify_high_risk env c e s).platform })
      × (e.risk_level ≢ high_risk → notify_high_risk env c e s ≡ s)
unfolding notify_high_risk
notify_high_risk-kept env c e s = elim (Bool-cases (risk_eq e.risk_level high_risk)) [
  | inr b ↦ (ground arith, λ n. ground arith)
  | inl b ↦ (
    ground (arith, alert_or_escalate_kept env c e.id (list_duty_users c.community_id s) s),
    λ n. ground arith,
  )
]

pub notify_high_risk-SameConfirmations :
    (env : Environment) (c : RequestContext) (e : SecurityEvent) (s : InspectionDb)
    → SameConfirmations s (notify_high_risk env c e s)
unfolding notify_high_risk
notify_high_risk-SameConfirmations env c e s =
    let m = alert_or_escalate-SameConfirmations env c e.id (list_duty_users c.community_id s) s in
    record {
      same_tokens = ground (arith, m.same_tokens);
      same_approvals = ground (arith, m.same_approvals);
    }
