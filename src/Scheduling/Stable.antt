-- ===== src/Scheduling/Stable.antt =====
-- `schedule` of core/scheduling/scheduler.py is greedy: a request gets the first of its matches whose
-- agent is free, and none only if all of them are taken.
use synapse_os.Base.{
  ℕ, suc, true, List, [], ◌∷◌, ◌++◌, some, none, get_elem?, All, All-weaken, if◌then◌else◌, ◌==◌,
  Result, ok, err, Bool-cases, Option-cases, inl, inr, ◌≡◌, refl, ap, subst, sym, arith,
}
use synapse_os.Scheduling.Scheduler.{
  ProjectScheduleRequest, RankedAgentMatch, AgentAssignment, Scheduler, keys, is_claimed, is_before,
  put, select_free, insert, sort_requests, assignment_of, take_on, assign_each, schedule,
}

-- The match's agent is in the list.
abbrev pub IsTaken : List ℕ → RankedAgentMatch → Type 0
IsTaken held m = is_claimed held m.agent_id ≡ true

select_free-none :
    (claimed : List ℕ) (found : List RankedAgentMatch)
    → select_free claimed found ≡ none
    → All (IsTaken claimed) found
select_free-none claimed [] h = tt
select_free-none claimed (x ∷ rest) h = elim (Bool-cases (is_claimed claimed x.agent_id)) [
  | inl c ↦ (c, select_free-none claimed rest (ground arith))
  | inr c ↦ absurd (ground arith)
]

-- The match is the first of those whose agent is not in the list.
pub record IsFirst (held : List ℕ) (found : List RankedAgentMatch) (m : RankedAgentMatch)
    : Type 0 where
  pub ahead : List RankedAgentMatch
  pub behind : List RankedAgentMatch
  pub placed : found ≡ ahead ++ m ∷ behind
  pub taken : All (IsTaken held) ahead

select_free-some :
    (claimed : List ℕ) (found : List RankedAgentMatch) (m : RankedAgentMatch)
    → select_free claimed found ≡ some m
    → IsFirst claimed found m
select_free-some claimed [] m h = absurd (cc)
select_free-some claimed (x ∷ rest) m h = elim (Bool-cases (is_claimed claimed x.agent_id)) [
  | inl c ↦
      let later = select_free-some claimed rest m (ground arith) in
      record {
        ahead = x ∷ later.ahead;
        behind = later.behind;
        placed = ap (λ l. x ∷ l) later.placed;
        taken = (c, later.taken);
      }
  | inr c ↦
      let p : x ≡ m = ground arith in
      record { ahead = []; behind = rest; placed = ap (λ y. y ∷ rest) p; taken = tt }
]

put_self :
    (k : ℕ) (a : AgentAssignment) (xs : List (ℕ × AgentAssignment))
    → is_claimed (keys (put k a xs)) k ≡ true
put_self k a [] = ground arith
put_self k a (x ∷ xs) = let later = put_self k a xs in ground arith

put_kept :
    (k j : ℕ) (a : AgentAssignment) (xs : List (ℕ × AgentAssignment))
    → is_claimed (keys xs) j ≡ true
    → is_claimed (keys (put k a xs)) j ≡ true
put_kept k j a [] h = absurd (cc)
put_kept k j a (x ∷ xs) h = elim (Bool-cases (j == x.0)) [
  | inl e ↦ ground arith
  | inr e ↦ let later = put_kept k j a xs (ground arith) in ground arith
]

-- The agents in the first list are in the second.
abbrev pub IsWithin : List ℕ → List ℕ → Type 0
IsWithin claimed held = (k : ℕ) → is_claimed claimed k ≡ true → is_claimed held k ≡ true

IsWithin-put :
    (claimed : List ℕ) (k : ℕ) (a : AgentAssignment) (xs : List (ℕ × AgentAssignment))
    → IsWithin claimed (keys xs)
    → IsWithin (k ∷ claimed) (keys (put k a xs))
IsWithin-put claimed k a xs within j h = elim (Bool-cases (j == k)) [
  | inl e ↦
      let p : j ≡ k = ground arith in
      subst (λ i. is_claimed (keys (put k a xs)) i ≡ true) (sym p) (put_self k a xs)
  | inr e ↦ put_kept k j a xs (within j (ground arith))
]

module _ {Q : Type 0} (P : ProjectScheduleRequest Q → Type 0) where
  insert-All-back :
      (r : ProjectScheduleRequest Q) (rs : List (ProjectScheduleRequest Q))
      → All P (insert r rs)
      → P r × All P rs
  insert-All-back r [] h = h
  insert-All-back r (x ∷ rs) h = elim (Bool-cases (is_before x r)) [
    | inl e ↦
        let q : insert r (x ∷ rs) ≡ x ∷ insert r rs = rw (e, if◌then◌else◌) refl in
        let both : P x × All P (insert r rs) = subst (All P) q h in
        let (own, rest) = insert-All-back r rs both.1 in (own, (both.0, rest))
    | inr e ↦
        let q : insert r (x ∷ rs) ≡ r ∷ x ∷ rs = rw (e, if◌then◌else◌) refl in subst (All P) q h
  ]

  sort_requests-All-back :
      (rs : List (ProjectScheduleRequest Q)) → All P (sort_requests rs) → All P rs
  unfolding sort_requests
  sort_requests-All-back [] h = tt
  sort_requests-All-back (r ∷ rs) h =
      let (here, later) = insert-All-back r (sort_requests rs) h in
      (here, sort_requests-All-back rs later)

module _ {Q : Type 0} (find : Q → List RankedAgentMatch) where
  -- What a request gets, of the assignments made, when the agents in the list hold assignments.
  pub data IsServed (made : List AgentAssignment) (held : List ℕ) (r : ProjectScheduleRequest Q)
      : Type 0 where
    served :
        (i id : ℕ) (m : RankedAgentMatch)
        → get_elem? made i ≡ some (assignment_of id r m)
        → IsFirst held (find r.matching_request) m
        → IsServed made held r
    unserved : All (IsTaken held) (find r.matching_request) → IsServed made held r

  pub record IsGreedy {E : Type 0} (requests : List (ProjectScheduleRequest Q)) (claimed : List ℕ)
      (out : Result E (List AgentAssignment) × Scheduler) : Type 0 where
    pub made : List AgentAssignment
    pub returned : out.0 ≡ ok made
    pub kept : IsWithin claimed (keys out.1.active_by_agent)
    pub each : All (IsServed made (keys out.1.active_by_agent)) requests

  IsServed-later :
      (a : AgentAssignment) (made : List AgentAssignment) (held : List ℕ)
      (r : ProjectScheduleRequest Q)
      → IsServed made held r
      → IsServed (a ∷ made) held r
  IsServed-later a made held r (served i id m e w) = served (suc i) id m e w
  IsServed-later a made held r (unserved w) = unserved w

  IsTaken-within :
      (claimed held : List ℕ) (found : List RankedAgentMatch)
      → IsWithin claimed held
      → All (IsTaken claimed) found
      → All (IsTaken held) found
  IsTaken-within claimed held found w h =
      All-weaken (IsTaken claimed) (IsTaken held) found (λ m t. w m.agent_id t) h

  module _ {E : Type 0} where
    none-IsGreedy :
        (r : ProjectScheduleRequest Q) (rest : List (ProjectScheduleRequest Q)) (claimed : List ℕ)
        (out : Result E (List AgentAssignment) × Scheduler)
        → All (IsTaken claimed) (find r.matching_request)
        → IsGreedy rest claimed out
        → IsGreedy (r ∷ rest) claimed out
    none-IsGreedy r rest claimed out t w = record {
      made = w.made;
      returned = w.returned;
      kept = w.kept;
      each = (unserved (IsTaken-within claimed _ _ w.kept t), w.each);
    }

    some-IsGreedy :
        (r : ProjectScheduleRequest Q) (rest : List (ProjectScheduleRequest Q)) (claimed : List ℕ)
        (id : ℕ) (m : RankedAgentMatch) (out : Result E (List AgentAssignment) × Scheduler)
        → IsFirst claimed (find r.matching_request) m
        → IsGreedy rest (m.agent_id ∷ claimed) out
        → IsGreedy
            (r ∷ rest)
            claimed
            (elim out.0 [ ok more ↦ ok (assignment_of id r m ∷ more) | err e ↦ err e ], out.1)
    some-IsGreedy r rest claimed id m out f w =
        let within : IsWithin claimed (keys out.1.active_by_agent) =
          λ k h. w.kept k (ground arith) in
        record {
          made = assignment_of id r m ∷ w.made;
          returned =
              ap (λ o. elim o [ ok more ↦ ok (assignment_of id r m ∷ more) | err e ↦ err e ])
                w.returned;
          kept = within;
          each = (
            served 0 id m refl record {
              ahead = f.ahead;
              behind = f.behind;
              placed = f.placed;
              taken = IsTaken-within claimed _ f.ahead within f.taken;
            },
            All-weaken _ _ rest (IsServed-later (assignment_of id r m) w.made _) w.each,
          );
        }

    assign_each-IsGreedy :
        (rs : List (ProjectScheduleRequest Q)) (claimed : List ℕ) (s : Scheduler)
        → IsWithin claimed (keys s.active_by_agent)
        → IsGreedy {E = E} rs claimed (assign_each (λ q. ok (find q)) rs claimed s)
    unfolding assign_each
    assign_each-IsGreedy [] claimed s w = record { made = []; returned = refl; kept = w; each = tt }
    assign_each-IsGreedy (r ∷ rest) claimed s w =
        elim (Option-cases (select_free claimed (find r.matching_request))) [
          | inl p ↦
              rw (p, assign_each)
                (none-IsGreedy r rest claimed _ (select_free-none claimed _ p)
                  (assign_each-IsGreedy rest claimed s w))
          | inr (m, p) ↦
              let a = assignment_of s.next_id r m in
              rw (p, assign_each)
                (some-IsGreedy r rest claimed s.next_id m _ (select_free-some claimed _ m p) (
                  assign_each-IsGreedy rest (m.agent_id ∷ claimed) (take_on a s)
                    (IsWithin-put claimed m.agent_id a s.active_by_agent w)))
        ]

    -- When the matcher does not raise, `schedule` returns, and every agent that was active is active
    -- afterwards. Each request either gets an assignment made from one of its matches, where the
    -- agents of all matches ranked ahead of that one are active afterwards, or the agents of all its
    -- matches are active afterwards.
    pub schedule-IsGreedy :
        (requests : List (ProjectScheduleRequest Q)) (s : Scheduler)
        → IsGreedy {E = E} requests
            (keys s.active_by_agent)
            (schedule (λ q. ok (find q)) requests s)
    unfolding schedule
    schedule-IsGreedy requests s =
        let w =
          assign_each-IsGreedy (sort_requests requests) (keys s.active_by_agent) s (λ k h. h) in
        record {
          made = w.made;
          returned = w.returned;
          kept = w.kept;
          each = sort_requests-All-back (IsServed w.made _) requests w.each;
        }
