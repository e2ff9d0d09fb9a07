-- ===== src/Escalation/Emitted.antt =====
-- Which rule of core/escalation/engine.py fires, and what a fired rule has emitted.
use synapse_os.Base.{
  ℕ, true, false, List, [], ◌∷◌, some, Result, ok, Result-cases, Option-cases, All, inl, inr, ◌≡◌,
  ◌↔◌, refl, sym, ap, ap₂, subst, ◌∙◌, arith,
}
use synapse_os.Escalation.Engine.{
  EscalationTarget, EscalationTrigger, EscalationRequest, EscalationAction, EscalationAuditEvent,
  EscalationResult, trigger_rules, condition, first_trigger, action_of, event_of, emit,
  evaluate_escalation,
}

-- Who is asked about a trigger.
abbrev pub target_of : EscalationTrigger → EscalationTarget
target_of EscalationTrigger.critical_permission_denied = EscalationTarget.security
target_of EscalationTrigger.irreversible_decision = EscalationTarget.finance
target_of EscalationTrigger.high_risk = EscalationTarget.security
target_of EscalationTrigger.unresolved_contradiction = EscalationTarget.architecture_review
target_of EscalationTrigger.insufficient_expertise = EscalationTarget.senior_agent
target_of EscalationTrigger.low_confidence = EscalationTarget.human
target_of EscalationTrigger.max_iterations = EscalationTarget.pm

-- The triggers that come before one, the nearest first.
abbrev pub more_urgent : EscalationTrigger → List EscalationTrigger
more_urgent EscalationTrigger.critical_permission_denied = []
more_urgent EscalationTrigger.irreversible_decision =
    EscalationTrigger.critical_permission_denied ∷ []
more_urgent EscalationTrigger.high_risk =
    EscalationTrigger.irreversible_decision ∷ EscalationTrigger.critical_permission_denied ∷ []
more_urgent EscalationTrigger.unresolved_contradiction =
    EscalationTrigger.high_risk ∷ EscalationTrigger.irreversible_decision
    ∷ EscalationTrigger.critical_permission_denied ∷ []
more_urgent EscalationTrigger.insufficient_expertise =
    EscalationTrigger.unresolved_contradiction ∷ EscalationTrigger.high_risk
    ∷ EscalationTrigger.irreversible_decision ∷ EscalationTrigger.critical_permission_denied ∷ []
more_urgent EscalationTrigger.low_confidence =
    EscalationTrigger.insufficient_expertise ∷ EscalationTrigger.unresolved_contradiction
    ∷ EscalationTrigger.high_risk ∷ EscalationTrigger.irreversible_decision
    ∷ EscalationTrigger.critical_permission_denied ∷ []
more_urgent EscalationTrigger.max_iterations =
    EscalationTrigger.low_confidence ∷ EscalationTrigger.insufficient_expertise
    ∷ EscalationTrigger.unresolved_contradiction ∷ EscalationTrigger.high_risk
    ∷ EscalationTrigger.irreversible_decision ∷ EscalationTrigger.critical_permission_denied ∷ []

-- The trigger's condition holds, and that of no more urgent one.
pub record IsMostUrgent (r : EscalationRequest) (t : EscalationTrigger) : Type 0 where
  pub holds : condition r t ≡ true
  pub others : All (λ u. condition r u ≡ false) (more_urgent t)

urgent_first :
    (r : EscalationRequest) (t : EscalationTrigger)
    → IsMostUrgent r t
    → first_trigger r ≡ some (t, target_of t)
unfolding first_trigger trigger_rules
urgent_first r EscalationTrigger.critical_permission_denied w = rw w.holds refl
urgent_first r EscalationTrigger.irreversible_decision w = rw (w.holds, w.others.0) refl
urgent_first r EscalationTrigger.high_risk w = rw (w.holds, w.others.0, w.others.1.0) refl
urgent_first r EscalationTrigger.unresolved_contradiction w =
    rw (w.holds, w.others.0, w.others.1.0, w.others.1.1.0) refl
urgent_first r EscalationTrigger.insufficient_expertise w =
    rw (w.holds, w.others.0, w.others.1.0, w.others.1.1.0, w.others.1.1.1.0) refl
urgent_first r EscalationTrigger.low_confidence w =
    rw (w.holds, w.others.0, w.others.1.0, w.others.1.1.0, w.others.1.1.1.0, w.others.1.1.1.1.0)
      refl
urgent_first r EscalationTrigger.max_iterations w =
    rw
      (
        w.holds, w.others.0, w.others.1.0, w.others.1.1.0, w.others.1.1.1.0, w.others.1.1.1.1.0,
        w.others.1.1.1.1.1.0,
      )
      refl

first_urgent :
    (r : EscalationRequest) (t : EscalationTrigger) (g : EscalationTarget)
    → first_trigger r ≡ some (t, g)
    → (g ≡ target_of t) × IsMostUrgent r t
unfolding first_trigger trigger_rules
first_urgent r EscalationTrigger.critical_permission_denied g h =
    (ground arith, record { holds = ground arith; others = tt })
first_urgent r EscalationTrigger.irreversible_decision g h =
    (ground arith, record { holds = ground arith; others = (ground arith, tt) })
first_urgent r EscalationTrigger.high_risk g h =
    (ground arith, record { holds = ground arith; others = (ground arith, (ground arith, tt)) })
first_urgent r EscalationTrigger.unresolved_contradiction g h = (
  ground arith,
  record { holds = ground arith; others = (ground arith, (ground arith, (ground arith, tt))) },
)
first_urgent r EscalationTrigger.insufficient_expertise g h = (
  ground arith,
  record {
    holds = ground arith;
    others = (ground arith, (ground arith, (ground arith, (ground arith, tt))));
  },
)
first_urgent r EscalationTrigger.low_confidence g h = (
  ground arith,
  record {
    holds = ground arith;
    others = (ground arith, (ground arith, (ground arith, (ground arith, (ground arith, tt)))));
  },
)
first_urgent r EscalationTrigger.max_iterations g h = (
  ground arith,
  record {
    holds = ground arith;
    others = (
      ground arith,
      (ground arith, (ground arith, (ground arith, (ground arith, (ground arith, tt))))),
    );
  },
)

-- A rule fires exactly if its trigger's condition holds and that of no more urgent trigger, and
-- then it asks the trigger's target.
pub first_trigger_iff :
    (r : EscalationRequest) (t : EscalationTrigger) (g : EscalationTarget)
    → (first_trigger r ≡ some (t, g)) ↔ ((g ≡ target_of t) × IsMostUrgent r t)
first_trigger_iff r t g =
    (first_urgent r t g, (λ w. urgent_first r t w.1 ∙ ap (λ x. some (t, x)) (sym w.0)))

pair_of :
    {W E : Type 0} (p : Result E (Unit {0}) × W) {u : Unit {0}} → p.0 ≡ ok u → p ≡ (ok tt, p.1)
pair_of p h = λ i. (h i, p.1)

module _ {W E : Type 0} (record_event : EscalationAuditEvent → W → Result E (Unit {0}) × W)
    (create : EscalationAction → W → Result E (Unit {0}) × W) where
  -- What lies between a request and a triggered result.
  pub record IsEmitted (action_id event_id : ℕ) (r : EscalationRequest) (w w' : W)
      (t : EscalationTrigger) (g : EscalationTarget) (a : EscalationAction)
      (e : EscalationAuditEvent) : Type 0 where
    pub fired : first_trigger r ≡ some (t, g)
    pub action : a ≡ action_of action_id r t g
    pub event : e ≡ event_of event_id r t g
    pub between : W
    pub recorded : record_event e w ≡ (ok tt, between)
    pub created : create a between ≡ (ok tt, w')

  emit-parts :
      (e : EscalationAuditEvent) (a : EscalationAction) (x y : EscalationResult) (w w' : W)
      → emit record_event create e a x w ≡ (ok y, w')
      → (between : W) × (x ≡ y)
        × (record_event e w ≡ (ok tt, between))
        × (create a between ≡ (ok tt, w'))
  unfolding emit
  emit-parts e a x y w w' h =
      let p = record_event e w in
      let q = create a p.1 in
      elim (Result-cases p.0) [
        | inr (k, lost) ↦ absurd (ground arith)
        | inl (u, kept) ↦ elim (Result-cases q.0) [
          | inr (k, lost) ↦ absurd (ground arith)
          | inl (v, made) ↦ (
            p.1,
            ground arith,
            pair_of p kept,
            pair_of q made ∙ ap (λ z. (ok tt, z)) (ground arith),
          )
        ]
      ]

  -- A result that says triggered is that of the rule that fires, and comes only after its audit event
  -- has been recorded and then its action has been created, one of each.
  pub evaluate_escalation-IsEmitted :
      (action_id event_id : ℕ) (r : EscalationRequest) (w w' : W) (t : EscalationTrigger)
      (g : EscalationTarget) (a : EscalationAction) (e : EscalationAuditEvent)
      → evaluate_escalation record_event create action_id event_id r w
        ≡ (ok (EscalationResult.triggered t g a e), w')
      → IsEmitted action_id event_id r w w' t g a e
  unfolding evaluate_escalation
  evaluate_escalation-IsEmitted action_id event_id r w w' t g a e h =
      elim (Option-cases (first_trigger r)) [
        | inl quiet ↦ absurd (ground arith)
        | inr (rule, fires) ↦
            let made = action_of action_id r rule.0 rule.1 in
            let event = event_of event_id r rule.0 rule.1 in
            let parts =
              emit-parts event made (EscalationResult.triggered rule.0 rule.1 made event)
                (EscalationResult.triggered t g a e) w w' (rw (fires, evaluate_escalation) at h) in
            let same_t : rule.0 ≡ t = cc (parts.1) in
            let same_g : rule.1 ≡ g = cc (parts.1) in
            let same_a : made ≡ a = cc (parts.1) in
            let same_e : event ≡ e = cc (parts.1) in
            record {
              fired = fires ∙ ap₂ (λ x y. some (x, y)) same_t same_g;
              action = sym same_a ∙ ap₂ (action_of action_id r) same_t same_g;
              event = sym same_e ∙ ap₂ (event_of event_id r) same_t same_g;
              between = parts.0;
              recorded = subst (λ x. record_event x w ≡ (ok tt, parts.0)) same_e parts.2;
              created = subst (λ x. create x parts.0 ≡ (ok tt, w')) same_a parts.3;
            }
      ]
