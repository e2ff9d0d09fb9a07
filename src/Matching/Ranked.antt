-- ===== src/Matching/Ranked.antt =====
-- Which agents the matcher of core/agent_registry/matcher.py ranks, and with which scores.
use synapse_os.Base.{
  arith, ℕ, zero, suc, ◌+◌, ◌*◌, ◌≤◌, ◌<◌, Bool, true, false, not, ◌&&◌, ltb, leb, List, [], ◌∷◌,
  ◌++◌, some, String, length, length-take, &&_true, take, all, get_elem?, if◌then◌else◌,
  is_nonempty, All, All-weaken, ok, Bool-cases, inl, inr, ◌≡◌, refl, sym, ap, subst,
}
use native.Mathlib.Nat.{div-lt_iff_lt-mul}
use synapse_os.Matching.Matcher.{
  AgentSeniority, AgentCapabilitySnapshot, AgentCandidate, AgentMatchingRequest, AgentMatch,
  RejectionReason, seniority_rank, risk_autonomy, is_available, find_cost, has_cost, quantize,
  reason_if, expertise_of, has_capability, has_permission, rejection_reasons, total_expertise,
  ranked_match, is_ranked_before, insert_by, sort_by, cost_or_zero, sort_out, rank_candidates,
  match_agents, canonical_candidates, is_distinct, candidate_ids, AgentMatchingResult,
}

-- A number that rounds is at most a bound that its quotient keeps.
quantize_bound : (a b bound : ℕ) → 0 < b → a ≤ bound * b → quantize a b ≤ bound
quantize_bound a b bound pos h =
    let less : 2 * a + b < suc bound * (2 * b) = omega arith in
    let q = (div-lt_iff_lt-mul {k = 2 * b} (omega arith)).1 less in omega arith

-- The agent may have the workstream.
pub record IsEligible (casefold : String → String) (request : AgentMatchingRequest)
    (c : AgentCandidate) : Type 0 where
  pub available : is_available c.status ≡ true
  pub capable : all (has_capability casefold c) request.required_capabilities ≡ true
  pub permitted : all (has_permission casefold c) request.required_permissions ≡ true
  pub autonomous : risk_autonomy request.risk_level ≤ c.autonomy_level
  pub senior : seniority_rank request.minimum_seniority ≤ seniority_rank c.seniority
  pub costed : has_cost (find_cost request.cost_estimates c.agent_id) ≡ true

-- Scores lie between zero and one.
abbrev pub is_bounded : AgentCandidate → Bool
is_bounded c =
    leb c.reputation 10_000
    && leb c.reliability 10_000
    && all (λ (k : AgentCapabilitySnapshot). leb k.expertise 10_000) c.capabilities

reason_if_empty :
    (b : Bool) (reason : RejectionReason) (rest : List RejectionReason)
    → is_nonempty (reason_if b reason ++ rest) ≡ false
    → (b ≡ false) × (is_nonempty rest ≡ false)
reason_if_empty true reason rest h = absurd (cc)
reason_if_empty false reason rest h = (refl, h)

reason_if_last :
    (b : Bool) (reason : RejectionReason) → is_nonempty (reason_if b reason) ≡ false → b ≡ false
reason_if_last true reason h = absurd (cc)
reason_if_last false reason h = refl

rank_bound : (s : AgentSeniority) → seniority_rank s ≤ 5
rank_bound AgentSeniority.trainee = omega arith
rank_bound AgentSeniority.junior = omega arith
rank_bound AgentSeniority.engineer = omega arith
rank_bound AgentSeniority.senior = omega arith
rank_bound AgentSeniority.staff = omega arith
rank_bound AgentSeniority.principal = omega arith

module _ (casefold : String → String) (request : AgentMatchingRequest) where
  pub unrejected-IsEligible :
      (c : AgentCandidate)
      → is_nonempty (rejection_reasons casefold request c) ≡ false
      → IsEligible casefold request c
  unfolding rejection_reasons
  unrejected-IsEligible c h =
      let (a, h1) = reason_if_empty (not (is_available c.status)) _ _ h in
      let (b, h2) =
        reason_if_empty (not (all (has_capability casefold c) request.required_capabilities)) _ _
          h1 in
      let (d, h3) =
        reason_if_empty (not (all (has_permission casefold c) request.required_permissions)) _ _
          h2 in
      let (e, h4) =
        reason_if_empty (ltb c.autonomy_level (risk_autonomy request.risk_level)) _ _ h3 in
      let (f, h5) =
        reason_if_empty
          (ltb (seniority_rank c.seniority) (seniority_rank request.minimum_seniority)) _ _ h4 in
      let g = reason_if_last (not (has_cost (find_cost request.cost_estimates c.agent_id))) _ h5 in
      record {
        available = ground arith;
        capable = ground arith;
        permitted = ground arith;
        autonomous = ground arith;
        senior = ground arith;
        costed = ground arith;
      }

  expertise_bound :
      (capabilities : List AgentCapabilitySnapshot) (name : String)
      → all (λ (k : AgentCapabilitySnapshot). leb k.expertise 10_000) capabilities ≡ true
      → expertise_of casefold capabilities name ≤ 10_000
  expertise_bound [] name h = omega arith
  expertise_bound (k ∷ rest) name h =
      let later = expertise_bound rest name (ground arith) in ground (arith, later)

  total_bound :
      (c : AgentCandidate) (names : List String)
      → is_bounded c ≡ true
      → total_expertise casefold c names ≤ 10_000 * length names
  total_bound c [] h = omega arith
  total_bound c (name ∷ rest) h =
      let later = total_bound c rest h in
      let here = expertise_bound c.capabilities name (ground arith) in omega arith

  seniority_bound : (c : AgentCandidate) → seniority_rank c.seniority ≤ 5
  seniority_bound c = rank_bound c.seniority

  pub score_bound :
      (c : AgentCandidate) (cost : ℕ)
      → is_bounded c ≡ true
      → 1 ≤ length request.required_capabilities
      → (ranked_match casefold request c cost).score ≤ 10_000
  unfolding ranked_match
  score_bound c cost h some_names =
      let e =
        quantize_bound (total_expertise casefold c request.required_capabilities)
          (length request.required_capabilities) 10_000 some_names
          (total_bound c request.required_capabilities h) in
      let s =
        quantize_bound (seniority_rank c.seniority * 10_000) 5 10_000 (omega arith)
          (let k = seniority_bound c in omega arith) in
      let r : c.reputation ≤ 10_000 = ground arith in
      let l : c.reliability ≤ 10_000 = ground arith in
      quantize_bound _ 100 10_000 (omega arith) (omega (arith, e, s, r, l))

module _ {A : Type 0} (P : A → Type 0) where
  insert_by-All :
      (before : A → A → Bool) (a : A) (xs : List A) → P a → All P xs → All P (insert_by before a xs)
  insert_by-All before a [] p h = (p, tt)
  insert_by-All before a (x ∷ xs) p h = elim (Bool-cases (before x a)) [
    | inl e ↦ rw (e, if◌then◌else◌) (h.0, insert_by-All before a xs p h.1)
    | inr e ↦ rw (e, if◌then◌else◌) (p, h)
  ]

  sort_by-All : (before : A → A → Bool) (xs : List A) → All P xs → All P (sort_by before xs)
  sort_by-All before [] h = tt
  sort_by-All before (x ∷ xs) h =
      insert_by-All before x (sort_by before xs) h.0 (sort_by-All before xs h.1)

  take-All : (n : ℕ) (xs : List A) → All P xs → All P (take n xs)
  take-All zero xs h = tt
  take-All (suc n) [] h = tt
  take-All (suc n) (x ∷ xs) h = (h.0, take-All n xs h.1)

-- No item comes before the one ahead of it.
abbrev pub is_sorted : {A : Type 0} → (A → A → Bool) → List A → Bool
is_sorted before [] = true
is_sorted before (x ∷ []) = true
is_sorted before (x ∷ y ∷ rest) = not (before y x) && is_sorted before (y ∷ rest)

module _ {A : Type 0} (before : A → A → Bool)
    (asymmetric : (x y : A) → before x y ≡ true → before y x ≡ false) where
  insert_by-is_sorted :
      (a : A) (xs : List A)
      → is_sorted before xs ≡ true
      → is_sorted before (insert_by before a xs) ≡ true
  insert_by-is_sorted a [] h = refl
  insert_by-is_sorted a (x ∷ []) h = elim (Bool-cases (before x a)) [
    | inl e ↦ let q = asymmetric x a e in rw (e, if◌then◌else◌) (ground arith)
    | inr e ↦ rw (e, if◌then◌else◌) (ground arith)
  ]
  insert_by-is_sorted a (x ∷ y ∷ rest) h =
      let later = insert_by-is_sorted a (y ∷ rest) (ground arith) in
      elim (Bool-cases (before x a)) [
        | inl e ↦
            let q = asymmetric x a e in
            elim (Bool-cases (before y a)) [
              | inl f ↦ ground (arith, later, q)
              | inr f ↦ ground (arith, later, q)
            ]
        | inr e ↦ ground (arith, e)
      ]

  sort_by-is_sorted : (xs : List A) → is_sorted before (sort_by before xs) ≡ true
  sort_by-is_sorted [] = refl
  sort_by-is_sorted (x ∷ xs) = insert_by-is_sorted x (sort_by before xs) (sort_by-is_sorted xs)

  take-is_sorted :
      (n : ℕ) (xs : List A) → is_sorted before xs ≡ true → is_sorted before (take n xs) ≡ true
  take-is_sorted zero xs h = refl
  take-is_sorted (suc n) [] h = refl
  take-is_sorted (suc zero) (x ∷ []) h = refl
  take-is_sorted (suc (suc n)) (x ∷ []) h = refl
  take-is_sorted (suc zero) (x ∷ y ∷ rest) h = refl
  take-is_sorted (suc (suc n)) (x ∷ y ∷ rest) h =
      let later = take-is_sorted (suc n) (y ∷ rest) (ground arith) in ground (arith, later)

ranked_before_asymmetric :
    (a b : AgentMatch) → is_ranked_before a b ≡ true → is_ranked_before b a ≡ false
ranked_before_asymmetric a b h = ground arith

module _ (casefold : String → String) (request : AgentMatchingRequest) where
  -- A match of one of the candidates, which may have the workstream.
  abbrev pub IsMatchOf : List AgentCandidate → AgentMatch → Type 0
  IsMatchOf candidates m =
      ((i : ℕ) × (get_elem? candidates i ≡ some m.agent))
      × IsEligible casefold request m.agent
      × (m
          ≡ ranked_match casefold request m.agent
              (cost_or_zero (find_cost request.cost_estimates m.agent.agent_id)))

  sort_out-IsMatchOf :
      (candidates : List AgentCandidate)
      → All (IsMatchOf candidates) (sort_out casefold request candidates).0
  unfolding sort_out ranked_match
  sort_out-IsMatchOf [] = tt
  sort_out-IsMatchOf (c ∷ rest) =
      let later =
        All-weaken (IsMatchOf rest) (IsMatchOf (c ∷ rest)) (sort_out casefold request rest).0
          (λ m p. ((suc p.0.0, p.0.1), p.1, p.2)) (sort_out-IsMatchOf rest) in
      elim (Bool-cases (is_nonempty (rejection_reasons casefold request c))) [
        | inl e ↦ rw (e, if◌then◌else◌) later
        | inr e ↦
            rw (e, if◌then◌else◌)
              (((0, refl), unrejected-IsEligible casefold request c e, refl), later)
      ]

  pub rank_candidates-ranks :
      (candidates : List AgentCandidate)
      → let found = (rank_candidates casefold request candidates).matches in
        All (IsMatchOf candidates) found
        × (is_sorted is_ranked_before found ≡ true)
        × (length found ≤ request.limit)
  unfolding rank_candidates
  rank_candidates-ranks candidates =
      let found = (sort_out casefold request candidates).0 in
      let bound = length-take request.limit (sort_by is_ranked_before found) in
      (
        take-All (IsMatchOf candidates) request.limit (sort_by is_ranked_before found) (
            sort_by-All (IsMatchOf candidates) is_ranked_before found
              (sort_out-IsMatchOf candidates)),
        take-is_sorted is_ranked_before ranked_before_asymmetric request.limit
            (sort_by is_ranked_before found)
            (sort_by-is_sorted is_ranked_before ranked_before_asymmetric found),
        omega arith,
      )

  match_agents-rank_candidates :
      (candidates : List AgentCandidate) (result : AgentMatchingResult)
      → match_agents casefold request candidates ≡ ok result
      → rank_candidates casefold request candidates ≡ result
  unfolding match_agents canonical_candidates
  match_agents-rank_candidates candidates result h =
      elim (Bool-cases (leb (length candidates) 100)) [
        | inr e ↦ absurd (ground arith)
        | inl e ↦ elim (Bool-cases (is_distinct (candidate_ids candidates))) [
          | inr f ↦ absurd (ground arith)
          | inl f ↦ ground arith
        ]
      ]

  -- If the candidates are at most a hundred, and none of them is repeated, `match` returns.
  pub match_agents-returns :
      (candidates : List AgentCandidate)
      → (leb (length candidates) 100 && is_distinct (candidate_ids candidates)) ≡ true
      → match_agents casefold request candidates ≡ ok (rank_candidates casefold request candidates)
  unfolding match_agents canonical_candidates
  match_agents-returns candidates h = ground arith

  -- The matches that `match` returns are candidates that may have the workstream, each with its
  -- score; none with a higher score, or with the same score and a smaller identifier, stands behind
  -- another; and there are at most as many as the request's limit.
  pub match_agents-ranks :
      (candidates : List AgentCandidate) (result : AgentMatchingResult)
      → match_agents casefold request candidates ≡ ok result
      → All (IsMatchOf candidates) result.matches
        × (is_sorted is_ranked_before result.matches ≡ true)
        × (length result.matches ≤ request.limit)
  match_agents-ranks candidates result h =
      subst
        (λ (r : AgentMatchingResult).
          All (IsMatchOf candidates) r.matches
          × (is_sorted is_ranked_before r.matches ≡ true)
          × (length r.matches ≤ request.limit))
        (match_agents-rank_candidates candidates result h) (rank_candidates-ranks candidates)

  bounded_get :
      (candidates : List AgentCandidate) (i : ℕ) (c : AgentCandidate)
      → all is_bounded candidates ≡ true
      → get_elem? candidates i ≡ some c
      → is_bounded c ≡ true
  bounded_get [] i c h e = absurd (cc)
  bounded_get (x ∷ rest) zero c h e =
      let same : x ≡ c = cc in
      subst (λ (y : AgentCandidate). is_bounded y ≡ true) same (&&_true (is_bounded x) _ h).0
  bounded_get (x ∷ rest) (suc i) c h e =
      bounded_get rest i c (&&_true (is_bounded x) (all is_bounded rest) h).1 e

  -- If the scores of the candidates are at most one, and the workstream asks for a capability, the
  -- scores of the matches that `match` returns are at most one.
  pub match_agents-scores :
      (candidates : List AgentCandidate) (result : AgentMatchingResult)
      → match_agents casefold request candidates ≡ ok result
      → all is_bounded candidates ≡ true
      → 1 ≤ length request.required_capabilities
      → All (λ (m : AgentMatch). m.score ≤ 10_000) result.matches
  match_agents-scores candidates result e h some_names =
      All-weaken (IsMatchOf candidates) (λ (m : AgentMatch). m.score ≤ 10_000) result.matches bound
        (match_agents-ranks candidates result e).0
    where
      bound : (m : AgentMatch) → IsMatchOf candidates m → m.score ≤ 10_000
      bound m p =
          let c = bounded_get candidates p.0.0 m.agent h p.0.1 in
          subst (λ s. s ≤ 10_000) (sym (ap (λ (x : AgentMatch). x.score) p.2))
            (score_bound casefold request m.agent
              (cost_or_zero (find_cost request.cost_estimates m.agent.agent_id)) c some_names)
