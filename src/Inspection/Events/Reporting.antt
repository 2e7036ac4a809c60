-- ===== src/Inspection/Events/Reporting.antt =====
-- What a completed `create_event` of inspection/application/service.py has done.
use property_community_agent.Base.{
  ◌≡◌, refl, ◌⊎◌, inl, inr, Bool-cases, none, [], ◌∷◌, ◌++◌, Text, has_content, leb, length, strip,
  ok, arith, Result-cases, subst, sym,
}
use property_community_agent.Platform.ConfirmationPort.{consume_confirmation}
use property_community_agent.Platform.Tables.{PlatformDb}
use property_community_agent.Inspection.EventEnums.{high_risk}
use property_community_agent.Inspection.Event.{SecurityEvent}
use property_community_agent.Inspection.Commands.{
  RequestContext, has_any_role, Command, CreateEvent,
}
use property_community_agent.Inspection.Snapshot.{event_of_response}
use property_community_agent.Inspection.Repository.{InspectionDb, add_event, add_event_status_log}
use property_community_agent.Inspection.Ports.{consume, token_text}
use property_community_agent.Inspection.Ports.Confirmed.{consume-ok}
use property_community_agent.Inspection.Service.{
  Environment, create_event_payload, event_confirmation_payload, is_idempotency_key, key_of,
  record_event, operator_role, add_audit,
}
use property_community_agent.Inspection.Service.Responses.{IsReplayed, or_replay-IsReplayed}
use property_community_agent.Inspection.Events.{
  event_create_roles, new_event, event_log, created_audit, validate_event, log_event,
  notify_high_risk, insert_event, report_event, create_event,
}
use property_community_agent.Inspection.Events.Alerts.{
  IsNotified, notify_high_risk-IsNotified, notify_high_risk-kept, SameConfirmations,
  notify_high_risk-SameConfirmations,
}

-- What a new event is: the only new row, confirmed, and announced if its risk is high.
pub record Reported (env : Environment) (k : Command CreateEvent) (c : RequestContext) (key : Text)
    (s : InspectionDb) (r : SecurityEvent × InspectionDb) : Type 0 where
  pub created : r.0 ≡ new_event env k.business c key
  pub inserted : r.1.events ≡ s.events ++ new_event env k.business c key ∷ []
  pub same_tasks : r.1.tasks ≡ s.tasks
  pub confirmed :
      (p : PlatformDb) × (consume_confirmation env.fence k.confirmation.approval_ref
          (token_text k.confirmation.confirmation_token)
          c.actor_id
          "SECURITY_EVENT_CREATE"
          (env.canonical_hash (
            event_confirmation_payload k.business.event_type k.business.risk_level
              k.business.location))
          env.now
          s.platform
        ≡ ok (tt, p))
      × (r.1.platform.tokens ≡ p.tokens)
      × (r.1.platform.approvals ≡ p.approvals)
  pub announced : k.business.risk_level ≡ high_risk → IsNotified env c r.0.id r.1

insert_event-ok :
    (env : Environment) (k : CreateEvent) (c : RequestContext) (key : Text) (s : InspectionDb)
    {r : SecurityEvent × InspectionDb}
    → insert_event env k c key s ≡ ok r
    → (r.0 ≡ new_event env k c key)
      × (r.1.events ≡ s.events ++ new_event env k c key ∷ [])
      × (r.1.tasks ≡ s.tasks)
      × SameConfirmations s r.1
      × (k.risk_level ≡ high_risk → IsNotified env c r.0.id r.1)
unfolding insert_event log_event
insert_event-ok env k c key s {r} h = elim (Result-cases (operator_role c)) [
  | inr (x, d) ↦ ground arith
  | inl (role, d) ↦
      let e = new_event env k c key in
      let s1 =
        add_event_status_log (event_log e c "CREATE" none role none env.now) (add_event e s) in
      let s2 =
        record_event c "SECURITY_EVENT_CREATE" key (env.canonical_hash (create_event_payload k)) e
          s1 in
      let s3 = add_audit (created_audit e c) s2 in
      let final : r ≡ (e, notify_high_risk env c e s3) = ground arith in
      let (kept, _) = notify_high_risk-kept env c e s3 in
      let m = notify_high_risk-SameConfirmations env c e s3 in
      subst
        (λ (x : SecurityEvent × InspectionDb).
          (x.0 ≡ e)
          × (x.1.events ≡ s.events ++ e ∷ [])
          × (x.1.tasks ≡ s.tasks)
          × SameConfirmations s x.1
          × (k.risk_level ≡ high_risk → IsNotified env c x.0.id x.1))
        (sym final)
        (
          refl,
          ground arith,
          ground arith,
          record { same_tokens = m.same_tokens; same_approvals = m.same_approvals },
          λ d. notify_high_risk-IsNotified env c e s3 d,
        )
]

report_event-Reported :
    (env : Environment) (k : Command CreateEvent) (c : RequestContext) (key : Text)
    (s : InspectionDb) {r : SecurityEvent × InspectionDb}
    → report_event env k c key s ≡ ok r
    → Reported env k c key s r
unfolding report_event validate_event
report_event-Reported env k c key s {r} h =
    let token = token_text k.confirmation.confirmation_token in
    let hash = env.canonical_hash (
      event_confirmation_payload k.business.event_type k.business.risk_level k.business.location) in
    elim (Bool-cases (has_content k.business.location)) [
      | inr b ↦ ground arith
      | inl b ↦ elim (Bool-cases (leb (length (strip k.business.location)) 128)) [
        | inr d ↦ ground arith
        | inl d ↦ elim (Bool-cases (has_content k.business.description)) [
          | inr e ↦ ground arith
          | inl e ↦
              elim (Result-cases (
                consume env.fence k.confirmation.approval_ref token c.actor_id
                  "SECURITY_EVENT_CREATE" hash env.now s)) [
                    | inr (x, f) ↦ ground arith
                    | inl (p, f) ↦
                        let (done, same) =
                          consume-ok env.fence k.confirmation.approval_ref token c.actor_id
                            "SECURITY_EVENT_CREATE" hash env.now s {p = p} f in
                        let (created, inserted, tasks, m, announced) =
                          insert_event-ok env k.business c key p.1 {r = r} (ground arith) in
                        record {
                          created = created;
                          inserted = ground arith;
                          same_tasks = ground arith;
                          confirmed = (p.1.platform, done, m.same_tokens, m.same_approvals);
                          announced = announced;
                        }
                  ]
        ]
      ]
    ]

pub create_event-Reported :
    (env : Environment) (k : Command CreateEvent) (c : RequestContext) (key : Text)
    (s : InspectionDb) {r : SecurityEvent × InspectionDb}
    → create_event env k c key s ≡ ok r
    → IsReplayed event_of_response
        (key_of c "SECURITY_EVENT_CREATE" key)
        (env.canonical_hash (create_event_payload k.business))
        s
        r
      ⊎ Reported env k c key s r
unfolding create_event
create_event-Reported env k c key s {r} h = elim (Bool-cases (is_idempotency_key key)) [
  | inr b ↦ ground arith
  | inl b ↦ elim (Bool-cases (has_any_role c event_create_roles)) [
    | inr d ↦ ground arith
    | inl d ↦ elim (Bool-cases (has_content (token_text k.confirmation.confirmation_token))) [
      | inr f ↦ ground arith
      | inl f ↦
          let ran =
            or_replay-IsReplayed event_of_response c "SECURITY_EVENT_CREATE" key
              (env.canonical_hash (create_event_payload k.business)) (report_event env k c key) s
              {r = r} (ground arith) in
          elim ran [ inl same ↦ inl same | inr e ↦ inr (report_event-Reported env k c key s e) ]
    ]
  ]
]
