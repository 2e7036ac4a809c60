-- ===== src/Inspection/Events/Execute/Effects.antt =====
-- What a completed `execute_event_action` of inspection/application/service.py has done.
use property_community_agent.Base.{
  ℕ, ◌≡◌, refl, inl, inr, true, false, Bool-cases, Option, some, [], ◌∷◌, ◌++◌, find, update_where,
  count_where, ◌==◌, Text, ok, arith, Result-cases, Option-cases, subst, sym,
}
use property_community_agent.Platform.Idempotency.{add_idempotency}
use property_community_agent.Inspection.Enums.{Role}
use property_community_agent.Inspection.EventEnums.{
  EventStatus, submit_disposal, action_value, action_eq, review_pass, closed,
}
use property_community_agent.Inspection.Event.{SecurityEvent, is_ungraded}
use property_community_agent.Inspection.Event.Machine.{Moved}
use property_community_agent.Inspection.Commands.{RequestContext, Command, ExecuteEventAction}
use property_community_agent.Inspection.Snapshot.{event_response, event_snapshot}
use property_community_agent.Inspection.Repository.{
  InspectionDb, event_in_community, get_event, is_previous_event, write_event, save_event,
}
use property_community_agent.Inspection.Repository.Saving.{save_event-ok}
use property_community_agent.Inspection.Ports.Confirmed.{consume_agent_write-ok}
use property_community_agent.Inspection.Service.{
  Environment, event_action_payload, key_of, operator_role, record_event, add_audit,
}
use property_community_agent.Inspection.Events.{event_log, log_event}
use property_community_agent.Inspection.Events.Execute.{
  may_see_event, get_authorized_event, event_operation, action_audit, consume_event_write,
  apply_event_action, finish_event_action, run_event_action,
}
use property_community_agent.Inspection.Events.Execute.Handled.{Untouched, has_authority}
use property_community_agent.Inspection.Events.Execute.Outcome.{apply_event_action-Handled}

pub get_authorized_event-ok :
    (i : ℕ) (c : RequestContext) (s : InspectionDb) {r : SecurityEvent × InspectionDb}
    → get_authorized_event i c s ≡ ok r
    → (r.1 ≡ s)
      × (find (event_in_community i c.community_id) s.events ≡ some r.0)
      × (may_see_event c r.0 ≡ true)
unfolding get_authorized_event get_event
get_authorized_event-ok i c s {r} h =
    elim (Option-cases (find (event_in_community i c.community_id) s.events)) [
      | inl e ↦ ground arith
      | inr (m, e) ↦ (ground arith, ground arith, ground arith)
    ]

log_event-ok :
    (e : SecurityEvent) (c : RequestContext) (k : ExecuteEventAction) (from : EventStatus)
    (reason : Option Text) (now : ℕ) (s : InspectionDb) {p : Unit {0} × InspectionDb}
    → log_event e c (action_value k.action) (some from) reason now s ≡ ok p
    → (role : Role) × (operator_role c ≡ ok role)
      × (p.1 ≡ record s {
        event_logs =
            s.event_logs ++ event_log e c (action_value k.action) (some from) role reason now ∷ [];
      })
unfolding log_event
log_event-ok e c k from reason now s {p} h = elim (Result-cases (operator_role c)) [
  | inl (role, d) ↦ (role, d, ground arith)
  | inr (x, d) ↦ ground arith
]

-- The trace of an action in the tables.
pub record Written (env : Environment) (i : ℕ) (k : ExecuteEventAction) (c : RequestContext)
    (key : Text) (from : EventStatus) (s : InspectionDb) (r : SecurityEvent × InspectionDb)
    : Type 0 where
  pub events : r.1.events ≡ update_where (is_previous_event r.0) (write_event r.0) s.events
  pub only : count_where (is_previous_event r.0) s.events ≡ 1
  pub same_tasks : r.1.tasks ≡ s.tasks
  pub response :
      r.1.idempotency
      ≡ add_idempotency
          (key_of c (event_operation k) key)
          (env.canonical_hash (event_action_payload i k))
          r.0.id
          (event_response (event_snapshot r.0))
          s.idempotency
  pub logged :
      (role : Role) × (reason : Option Text) × (operator_role c ≡ ok role)
      × (r.1.event_logs
          ≡ s.event_logs
            ++ event_log r.0 c (action_value k.action) (some from) role reason env.now ∷ [])

finish_event_action-Written :
    (env : Environment) (i : ℕ) (k : ExecuteEventAction) (c : RequestContext) (key : Text)
    (from : EventStatus) (reason : Option Text) (e' : SecurityEvent) (s : InspectionDb)
    {r : SecurityEvent × InspectionDb}
    → finish_event_action env i k c key from reason e' s ≡ ok r
    → (r.0 ≡ e') × Written env i k c key from s r
unfolding finish_event_action
finish_event_action-Written env i k c key from reason e' s {r} h =
    let s0 =
      record_event c (event_operation k) key (env.canonical_hash (event_action_payload i k)) e' s in
    elim (Result-cases (log_event e' c (action_value k.action) (some from) reason env.now s0)) [
      | inr (x, d) ↦ ground arith
      | inl (p, d) ↦
          let (role, o, logged) = log_event-ok e' c k from reason env.now s0 {p = p} d in
          elim (Result-cases (save_event e' p.1)) [
            | inr (x, f) ↦ ground arith
            | inl (q, f) ↦
                let (one, saved) = save_event-ok e' p.1 {p = q} f in
                let final : r ≡ (e', add_audit (action_audit k c reason e') q.1) = ground arith in
                subst
                  (λ (x : SecurityEvent × InspectionDb).
                    (x.0 ≡ e') × Written env i k c key from s x)
                  (sym final)
                  (
                    refl,
                    record {
                      events = ground arith;
                      only = ground arith;
                      same_tasks = ground arith;
                      response = ground arith;
                      logged = (role, reason, o, ground arith);
                    },
                  )
          ]
    ]

-- What a completed action shows of the event that it found and of the one that it returned.
pub record Done (env : Environment) (i : ℕ) (k : Command ExecuteEventAction) (c : RequestContext)
    (key : Text) (s : InspectionDb) (e : SecurityEvent) (r : SecurityEvent × InspectionDb)
    : Type 0 where
  pub found : find (event_in_community i c.community_id) s.events ≡ some e
  pub seen : may_see_event c e ≡ true
  pub expected : e.version ≡ k.business.expected_version
  pub authority : has_authority k.business.action e c ≡ true
  pub moved : Moved e r.0
  pub closes : r.0.status ≡ closed → (k.business.action ≡ review_pass) × (is_ungraded e ≡ false)
  pub written : Written env i k.business c key e.status s r

consume_event_write-ok :
    (env : Environment) (i : ℕ) (k : Command ExecuteEventAction) (c : RequestContext)
    (s : InspectionDb) {p : Unit {0} × InspectionDb}
    → consume_event_write env i k c s ≡ ok p
    → p.1 ≡ record s { platform = p.1.platform }
unfolding consume_event_write
consume_event_write-ok env i k c s {p} h =
    elim (Bool-cases (action_eq k.business.action submit_disposal)) [
      | inr b ↦ ground arith
      | inl b ↦
          (consume_agent_write-ok env.fence c k.confirmation (event_operation k.business)
            (env.canonical_hash (event_action_payload i k.business)) env.now s {p = p}
            (ground arith)).0
    ]

-- The tables before the handler and the confirmation are those of the call.
rebase :
    {env : Environment} {i : ℕ} {k : ExecuteEventAction} {c : RequestContext} {key : Text}
    {from : EventStatus} {s s1 s2 : InspectionDb} {r : SecurityEvent × InspectionDb}
    → Untouched s1 s2
    → s1 ≡ record s { platform = s1.platform }
    → Written env i k c key from s2 r
    → Written env i k c key from s r
rebase {r} u same w = record {
  events = ground (arith, w.events, u.same_events);
  only = ground (arith, w.only, u.same_events);
  same_tasks = ground (arith, w.same_tasks, u.same_tasks);
  response = ground (arith, w.response, u.same_responses);
  logged = let (role, reason, o, l) = w.logged in (role, reason, o, ground (arith, l, u.same_logs));
}

-- An action on an event that completes found the event at the expected version and visible to an
-- actor with the authority for it, and returns it one version on, valid if it was. It has closed the
-- event only by a review that passed, with its grade confirmed if the risk is high. One row was
-- written, one status log added, and the response is kept under the key.
pub run_event_action-Done :
    (env : Environment) (i : ℕ) (k : Command ExecuteEventAction) (c : RequestContext) (key : Text)
    (s : InspectionDb) {r : SecurityEvent × InspectionDb}
    → run_event_action env i k c key s ≡ ok r
    → (e : SecurityEvent) × Done env i k c key s e r
unfolding run_event_action
run_event_action-Done env i k c key s {r} h = elim (Result-cases (get_authorized_event i c s)) [
  | inr (x, d) ↦ ground arith
  | inl ((e, s0), d) ↦
      let (same, found, seen) = get_authorized_event-ok i c s {r = (e, s0)} d in
      elim (Bool-cases (e.version == k.business.expected_version)) [
        | inr b ↦ ground arith
        | inl b ↦ elim (Result-cases (consume_event_write env i k c s)) [
          | inr (x, f) ↦ ground arith
          | inl ((u, s1), f) ↦ elim (Result-cases (apply_event_action e k.business c env.now s1)) [
            | inr (x, g) ↦ ground arith
            | inl (((reason, e'), s2), g) ↦
                let handled =
                  apply_event_action-Handled e k.business c env.now s1 {r = ((reason, e'), s2)} g in
                let kept = consume_event_write-ok env i k c s {p = (u, s1)} f in
                let (same_event, written) =
                  finish_event_action-Written env i k.business c key e.status reason e' s2 {r = r}
                    (ground arith) in
                let wrote = rebase handled.untouched kept written in
                (
                  e,
                  record {
                    found = found;
                    seen = seen;
                    expected = ground arith;
                    authority = handled.authority;
                    moved = subst (Moved e) (sym same_event) handled.moved;
                    closes = λ f.
                        handled.closes
                          (subst (λ (x : SecurityEvent). x.status ≡ closed) same_event f);
                    written = wrote;
                  },
                )
          ]
        ]
      ]
]
