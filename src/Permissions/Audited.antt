-- ===== src/Permissions/Audited.antt =====
-- What a decision of `PermissionEngine.evaluate` (core/permissions/engine.py) comes with.
use synapse_os.Base.{
  ℕ, Bool, true, List, Option, none, some, String, ==_iff, eq_iff, Result, ok, Result-cases, ◌≡◌,
  refl, sym, ap, ◌∙◌, subst, arith, Option-cases, &&_true, inl, inr,
}
use synapse_os.Enums.{Permission}
use synapse_os.Permissions.Types.{
  PermissionOutcome, PermissionRequest, PolicyRequest, PermissionDecision, policy_request,
}
use synapse_os.Permissions.Policy.{PermissionError, Database, evaluate_policy}
use synapse_os.Permissions.Engine.{
  parse_permissions, is_scope_kept, validate_decision, record_and_return, ask_policy,
  unknown_decision, evaluate_valid, evaluate_request,
}
use synapse_os.Permissions.Authority.{IsAuthorized, policy-IsAuthorized}

-- The decision is about the request.
pub record IsAbout (r : PermissionRequest) (d : PermissionDecision) : Type 0 where
  pub agent : d.agent_id ≡ r.agent_id
  pub run : d.agent_run_id ≡ r.agent_run_id
  pub project : d.project_id ≡ r.project_id
  pub task : d.task_id ≡ r.task_id
  pub tool : d.tool_name ≡ r.tool_name
  pub correlation : d.correlation_id ≡ r.correlation_id

is_scope_kept-IsAbout :
    (d : PermissionDecision) (r : PermissionRequest) (ps : List Permission) (now : ℕ)
    → is_scope_kept d (policy_request r ps) now ≡ true
    → IsAbout r d
unfolding is_scope_kept
is_scope_kept-IsAbout d r ps now h =
    let s7 = &&_true _ _ h in
    let s6 = &&_true _ _ s7.0 in
    let s5 = &&_true _ _ s6.0 in
    let s4 = &&_true _ _ s5.0 in
    let s3 = &&_true _ _ s4.0 in
    let s2 = &&_true _ _ s3.0 in
    let s1 = &&_true _ _ s2.0 in
    record {
      agent = (eq_iff _ _).0 s1.0;
      run = (==_iff _ _).0 s1.1;
      project = (==_iff _ _).0 s2.1;
      task = (==_iff _ _).0 s3.1;
      tool = (eq_iff _ _).0 s4.1;
      correlation = (==_iff _ _).0 s6.1;
    }

module _ {W : Type 0} (matches : String → String → Bool)
    (policy : PolicyRequest → ℕ → Result PermissionError PermissionDecision) (clock : Option ℕ)
    (record_decision : PermissionDecision → W → Result PermissionError W) where
  record_and_return-parts :
      (d e : PermissionDecision) (w w' : W)
      → record_and_return matches policy clock record_decision d w ≡ ok (e, w')
      → (d ≡ e) × (record_decision d w ≡ ok w')
  unfolding record_and_return
  record_and_return-parts d e w w' h = elim (Result-cases (record_decision d w)) [
    | inl (v, q) ↦ (ground arith, ground arith)
    | inr (x, q) ↦ absurd (ground arith)
  ]

  -- What lies between a request that is valid and its decision.
  abbrev Passed : PermissionRequest → ℕ → Option (List Permission) → PermissionDecision → Type 0
  Passed r now none d = d ≡ unknown_decision matches policy clock record_decision r now
  Passed r now (some ps) d =
      (policy (policy_request r ps) now ≡ ok d) × (is_scope_kept d (policy_request r ps) now ≡ true)

  ask_policy-ok :
      (r : PolicyRequest) (now : ℕ) (d : PermissionDecision)
      → ask_policy matches policy clock record_decision r now ≡ ok d
      → policy r now ≡ ok d
  unfolding ask_policy
  ask_policy-ok r now d h = elim (Result-cases (policy r now)) [
    | inl (v, q) ↦ ground arith
    | inr (x, q) ↦ absurd (ground arith)
  ]

  validate_decision-ok :
      (d e : PermissionDecision) (r : PolicyRequest) (now : ℕ)
      → validate_decision matches policy clock record_decision d r now ≡ ok e
      → (d ≡ e) × (is_scope_kept d r now ≡ true)
  unfolding validate_decision
  validate_decision-ok d e r now h = ground arith

  evaluate_valid-Passed :
      (r : PermissionRequest) (now : ℕ) (o : Option (List Permission)) (d : PermissionDecision)
      (w w' : W)
      → evaluate_valid matches policy clock record_decision r now o w ≡ ok (d, w')
      → Passed r now o d × (record_decision d w ≡ ok w')
  unfolding evaluate_valid
  evaluate_valid-Passed r now none d w w' h =
      let p =
        record_and_return-parts (unknown_decision matches policy clock record_decision r now) d w w'
          h in
      (sym p.0, subst (λ x. record_decision x w ≡ ok w') p.0 p.1)
  evaluate_valid-Passed r now (some ps) d w w' h =
      elim (Result-cases
        (ask_policy matches policy clock record_decision (policy_request r ps) now)) [
          | inr (x, e) ↦ absurd (ground arith)
          | inl (raw, e) ↦
              elim (Result-cases (
                validate_decision matches policy clock record_decision raw (policy_request r ps)
                  now)) [
                    | inr (x, v) ↦ absurd (ground arith)
                    | inl (same, v) ↦
                        let c = validate_decision-ok raw same (policy_request r ps) now v in
                        let p = record_and_return-parts same d w w' (ground arith) in
                        let q : raw ≡ d = c.0 ∙ p.0 in
                        (
                          (
                            subst (λ x. policy (policy_request r ps) now ≡ ok x) q
                                (ask_policy-ok (policy_request r ps) now raw e),
                            subst (λ x. is_scope_kept x (policy_request r ps) now ≡ true) q c.1,
                          ),
                          subst (λ x. record_decision x w ≡ ok w') p.0 p.1,
                        )
                  ]
        ]

  Passed-IsAbout :
      (r : PermissionRequest) (now : ℕ) (o : Option (List Permission)) (d : PermissionDecision)
      → Passed r now o d
      → IsAbout r d
  Passed-IsAbout r now none d e = rw e (record {
    agent = refl;
    run = refl;
    project = refl;
    task = refl;
    tool = refl;
    correlation = refl;
  })
  Passed-IsAbout r now (some ps) d w = is_scope_kept-IsAbout d r ps now w.1

  evaluate_request-Passed :
      (r : PermissionRequest) (d : PermissionDecision) (w w' : W)
      → evaluate_request matches policy clock record_decision r w ≡ ok (d, w')
      → (now : ℕ) × (clock ≡ some now)
        × Passed r now (parse_permissions r.required_permission_ids) d
        × (record_decision d w ≡ ok w')
  unfolding evaluate_request
  evaluate_request-Passed r d w w' h = elim (Option-cases clock) [
    | inl e ↦ absurd (ground arith)
    | inr (now, e) ↦
        let p =
          evaluate_valid-Passed r now (parse_permissions r.required_permission_ids) d w w'
            (ground arith) in
        (now, e, p.0, p.1)
  ]

  -- A decision that the engine returns is about the request, and the recorder has accepted it: the
  -- world is the one that recording it has left.
  pub evaluate_request_recorded :
      (r : PermissionRequest) (d : PermissionDecision) (w w' : W)
      → evaluate_request matches policy clock record_decision r w ≡ ok (d, w')
      → IsAbout r d × (record_decision d w ≡ ok w')
  evaluate_request_recorded r d w w' h =
      let (now, e, p, recorded) = evaluate_request-Passed r d w w' h in
      (Passed-IsAbout r now (parse_permissions r.required_permission_ids) d p, recorded)

  Passed-allow :
      (r : PermissionRequest) (now : ℕ) (o : Option (List Permission)) (d : PermissionDecision)
      → Passed r now o d
      → d.outcome ≡ PermissionOutcome.allow
      → (ps : List Permission) × (o ≡ some ps) × (policy (policy_request r ps) now ≡ ok d)
  Passed-allow r now none d e a = absurd (cc (a, ap (λ (x : PermissionDecision). x.outcome) e))
  Passed-allow r now (some ps) d w a = (ps, refl, w.0)

-- Over the database policy, the engine returns an `ALLOW` only for a request whose permissions are
-- all known and which the database authorizes at the time of the clock.
pub evaluate_request-IsAuthorized :
    {W : Type 0} (matches : String → String → Bool) (db : Database) (clock : Option ℕ)
    (record_decision : PermissionDecision → W → Result PermissionError W) (r : PermissionRequest)
    (d : PermissionDecision) (w w' : W)
    → evaluate_request matches (evaluate_policy matches (some db)) clock record_decision r w
      ≡ ok (d, w')
    → d.outcome ≡ PermissionOutcome.allow
    → (now : ℕ) × (ps : List Permission) × (level : ℕ) × (clock ≡ some now)
      × (parse_permissions r.required_permission_ids ≡ some ps)
      × IsAuthorized db (policy_request r ps) now level
evaluate_request-IsAuthorized matches db clock record_decision r d w w' h allowed =
    let policy = evaluate_policy matches (some db) in
    let (now, e, p, recorded) =
      evaluate_request-Passed matches policy clock record_decision r d w w' h in
    let (ps, known, told) =
      Passed-allow matches policy clock record_decision r now
        (parse_permissions r.required_permission_ids) d p allowed in
    let (level, authorized) =
      policy-IsAuthorized matches db (policy_request r ps) now d told allowed in
    (now, ps, level, e, known, authorized)
