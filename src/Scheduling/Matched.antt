-- ===== src/Scheduling/Matched.antt =====
-- The scheduler of core/scheduling/scheduler.py with the matcher of core/agent_registry/matcher.py.
use synapse_os.Base.{
  Bool, true, ◌>>=◌, leb, length, ◌&&◌, ℕ, List, [], ◌∷◌, map, some, String, get_elem?, All,
  All-get_elem, if◌then◌else◌, Result, ok, err, Bool-cases, Option-cases, inl, inr, ◌≡◌, refl,
  subst, arith,
}
use synapse_os.Matching.Matcher.{
  MatchError, is_distinct, candidate_ids, rank_candidates, AgentCandidate, AgentMatchingRequest,
  AgentMatch, match_agents,
}
use synapse_os.Matching.Ranked.{IsMatchOf, match_agents-ranks, match_agents-returns}
use synapse_os.Scheduling.Scheduler.{
  ProjectScheduleRequest, RankedAgentMatch, AgentAssignment, Scheduler, keys, is_claimed, is_before,
  select_free, insert, sort_requests, assignment_of, take_on, assign_each, schedule,
}

select_free-All :
    (P : RankedAgentMatch → Type 0) (claimed : List ℕ) (found : List RankedAgentMatch)
    (m : RankedAgentMatch)
    → All P found
    → select_free claimed found ≡ some m
    → P m
select_free-All P claimed [] m h e = absurd (cc)
select_free-All P claimed (x ∷ rest) m h e = elim (Bool-cases (is_claimed claimed x.agent_id)) [
  | inl c ↦ select_free-All P claimed rest m h.1 (ground arith)
  | inr c ↦ let p : x ≡ m = ground arith in subst P p h.0
]

module _ {Q : Type 0} (P : ProjectScheduleRequest Q → Type 0) where
  insert-All :
      (r : ProjectScheduleRequest Q) (rs : List (ProjectScheduleRequest Q))
      → P r
      → All P rs
      → All P (insert r rs)
  insert-All r [] p h = (p, tt)
  insert-All r (x ∷ rs) p h = elim (Bool-cases (is_before x r)) [
    | inl e ↦ rw (e, if◌then◌else◌) (h.0, insert-All r rs p h.1)
    | inr e ↦ rw (e, if◌then◌else◌) (p, h)
  ]

  sort_requests-All : (rs : List (ProjectScheduleRequest Q)) → All P rs → All P (sort_requests rs)
  unfolding sort_requests
  sort_requests-All [] h = tt
  sort_requests-All (r ∷ rs) h = insert-All r (sort_requests rs) h.0 (sort_requests-All rs h.1)

-- `result.matches`, as the scheduler reads them.
abbrev pub ranked : List AgentMatch → List RankedAgentMatch
ranked found =
    map (λ (m : AgentMatch). record { agent_id = m.agent.agent_id; score = m.score }) found

-- The candidates that the matcher accepts.
abbrev pub is_accepted : List AgentCandidate → Bool
is_accepted candidates = leb (length candidates) 100 && is_distinct (candidate_ids candidates)

-- `self._matcher.match(request.matching_request, candidates)`, with what the loop reads of it.
abbrev pub matcher :
    (String → String)
    → List AgentCandidate
    → AgentMatchingRequest
    → Result MatchError (List RankedAgentMatch)
matcher casefold candidates q = do
  result ← match_agents casefold q candidates
  ok (ranked result.matches)

module _ (casefold : String → String) (candidates : List AgentCandidate) where
  -- A match of a candidate that may have the request's workstream.
  pub record IsEarned (r : ProjectScheduleRequest AgentMatchingRequest) (m : RankedAgentMatch)
      : Type 0 where
    pub match : AgentMatch
    pub earned : IsMatchOf casefold r.matching_request candidates match
    pub same : m ≡ record { agent_id = match.agent.agent_id; score = match.score }

  ranked-All :
      (r : ProjectScheduleRequest AgentMatchingRequest) (found : List AgentMatch)
      → All (IsMatchOf casefold r.matching_request candidates) found
      → All (IsEarned r) (ranked found)
  ranked-All r [] h = tt
  ranked-All r (m ∷ found) h =
      (record { match = m; earned = h.0; same = refl }, ranked-All r found h.1)

  -- An assignment of one of the requests, to an agent that earned it.
  pub record IsAssigned (requests : List (ProjectScheduleRequest AgentMatchingRequest))
      (a : AgentAssignment) : Type 0 where
    pub place : ℕ
    pub request : ProjectScheduleRequest AgentMatchingRequest
    pub requested : get_elem? requests place ≡ some request
    pub chosen : RankedAgentMatch
    pub deserved : IsEarned request chosen
    pub made : a ≡ assignment_of a.assignment_id request chosen

  abbrev pub Requested :
      List (ProjectScheduleRequest AgentMatchingRequest)
      → ProjectScheduleRequest AgentMatchingRequest
      → Type 0
  Requested all_requests r = (i : ℕ) × (get_elem? all_requests i ≡ some r)

  module _ (all_requests : List (ProjectScheduleRequest AgentMatchingRequest)) where
    -- Returns, and what it returns are assignments of the requests.
    abbrev pub Assigns : Result MatchError (List AgentAssignment) → Type 0
    Assigns out =
        (made : List AgentAssignment) × (out ≡ ok made) × All (IsAssigned all_requests) made

    cons-Assigns :
        (a : AgentAssignment) (out : Result MatchError (List AgentAssignment))
        → IsAssigned all_requests a
        → Assigns out
        → Assigns (elim out [ ok more ↦ ok (a ∷ more) | err e ↦ err e ])
    cons-Assigns a (ok made) h (l, e, w) =
        let p : l ≡ made = cc in (a ∷ made, refl, (h, subst (All (IsAssigned all_requests)) p w))
    cons-Assigns a (err e) h (l, q, w) = absurd (cc)

    assign_each-Assigns :
        (rs : List (ProjectScheduleRequest AgentMatchingRequest)) (claimed : List ℕ) (s : Scheduler)
        → is_accepted candidates ≡ true
        → All (Requested all_requests) rs
        → Assigns (assign_each (matcher casefold candidates) rs claimed s).0
    unfolding assign_each
    assign_each-Assigns [] claimed s accepted h = ([], refl, tt)
    assign_each-Assigns (r ∷ rest) claimed s accepted h =
        let result = rank_candidates casefold r.matching_request candidates in
        let found = ranked result.matches in
        let returned = match_agents-returns casefold r.matching_request candidates accepted in
        elim (Option-cases (select_free claimed found)) [
          | inl p ↦ rw (returned, p, assign_each) (assign_each-Assigns rest claimed s accepted h.1)
          | inr (m, p) ↦
              let fair =
                ranked-All r _
                  (match_agents-ranks casefold r.matching_request candidates result returned).0 in
              let a = assignment_of s.next_id r m in
              let one : IsAssigned all_requests a = record {
                place = h.0.0;
                request = r;
                requested = h.0.1;
                chosen = m;
                deserved = select_free-All (IsEarned r) claimed found m fair p;
                made = refl;
              } in
              rw (returned, p, assign_each)
                (cons-Assigns a _ one
                  (assign_each-Assigns rest (m.agent_id ∷ claimed) (take_on a s) accepted h.1))
        ]

    -- If the candidates are at most a hundred, and none is repeated, `schedule` with the matcher
    -- returns, whatever the scheduler holds, and each assignment that it returns is for one of the
    -- requests, with that request's project, task and priority, to one of the candidates, which may
    -- have the request's workstream, with the score of that match.
    pub schedule-Assigns :
        (s : Scheduler)
        → is_accepted candidates ≡ true
        → Assigns (schedule (matcher casefold candidates) all_requests s).0
    unfolding schedule
    schedule-Assigns s accepted =
        assign_each-Assigns (sort_requests all_requests) (keys s.active_by_agent) s accepted
          (sort_requests-All (Requested all_requests) all_requests (All-get_elem all_requests))
