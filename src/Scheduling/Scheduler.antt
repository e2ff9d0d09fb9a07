-- ===== src/Scheduling/Scheduler.antt =====
-- `ProjectScheduler` of core/scheduling/scheduler.py, over the matcher of core/agent_registry. Times
-- are left out, and the identifiers that `uuid4` makes are the numbers of a counter.
use synapse_os.Base.{
  ℕ, suc, Bool, ◌&&◌, ◌||◌, List, [], ◌∷◌, ◌++◌, Option, none, some, ◌==◌, ltb, any, if◌then◌else◌,
  Result, ok, err,
}

pub data AssignmentStatus : Type 0 where
  active released : AssignmentStatus

-- A request; `matching_request` is what the matcher reads.
pub record ProjectScheduleRequest (Q : Type 0) : Type 0 where
  pub project_id : ℕ
  pub task_id : ℕ
  pub project_priority : ℕ
  pub matching_request : Q

-- `RankedAgentMatch`, as far as the scheduler reads it.
pub record RankedAgentMatch : Type 0 where
  pub agent_id : ℕ
  pub score : ℕ

pub record AgentAssignment : Type 0 where
  pub assignment_id : ℕ
  pub agent_id : ℕ
  pub project_id : ℕ
  pub task_id : ℕ
  pub project_priority : ℕ
  pub score : ℕ
  pub status : AssignmentStatus

-- `_active_by_agent`, in the order of insertion, and `_history`.
pub record Scheduler : Type 0 where
  pub active_by_agent : List (ℕ × AgentAssignment)
  pub history : List AgentAssignment
  pub next_id : ℕ

abbrev pub keys : List (ℕ × AgentAssignment) → List ℕ
keys [] = []
keys (e ∷ rest) = e.0 ∷ keys rest

-- `agent_id in claimed`
abbrev pub is_claimed : List ℕ → ℕ → Bool
is_claimed claimed agent = any (λ c. agent == c) claimed

-- `self._active_by_agent[agent_id] = assignment`
abbrev pub put : ℕ → AgentAssignment → List (ℕ × AgentAssignment) → List (ℕ × AgentAssignment)
put agent a [] = (agent, a) ∷ []
put agent a (e ∷ rest) =
    let later = put agent a rest in if e.0 == agent then (agent, a) ∷ rest else e ∷ later

-- `self._active_by_agent.pop(agent_id)`
abbrev pub pop : ℕ → List (ℕ × AgentAssignment) → List (ℕ × AgentAssignment)
pop agent [] = []
pop agent (e ∷ rest) = let later = pop agent rest in if e.0 == agent then rest else e ∷ later

-- `self._history[self._history.index(assignment)] = released`; the identifier of an assignment tells
-- it from the others. An assignment that is not there, for which `index` raises, changes nothing.
abbrev pub replace : ℕ → AgentAssignment → List AgentAssignment → List AgentAssignment
replace id a [] = []
replace id a (x ∷ rest) =
    let later = replace id a rest in if x.assignment_id == id then a ∷ rest else x ∷ later

-- The first match whose agent is not claimed.
abbrev pub select_free : List ℕ → List RankedAgentMatch → Option RankedAgentMatch
select_free claimed [] = none
select_free claimed (m ∷ rest) =
    let later = select_free claimed rest in if is_claimed claimed m.agent_id then later else some m

-- The scheduler with one assignment more.
abbrev pub take_on : AgentAssignment → Scheduler → Scheduler
take_on a s = record {
  active_by_agent = put a.agent_id a s.active_by_agent;
  history = s.history ++ a ∷ [];
  next_id = suc s.next_id;
}

module _ {Q : Type 0} where
  -- The order of the sort keys.
  abbrev pub is_before : ProjectScheduleRequest Q → ProjectScheduleRequest Q → Bool
  is_before a b =
      ltb b.project_priority a.project_priority
      || (a.project_priority == b.project_priority
          && (ltb a.project_id b.project_id
              || (a.project_id == b.project_id && ltb a.task_id b.task_id)))

  abbrev pub insert :
      ProjectScheduleRequest Q → List (ProjectScheduleRequest Q) → List (ProjectScheduleRequest Q)
  insert r [] = r ∷ []
  insert r (x ∷ rest) =
      let later = insert r rest in if is_before x r then x ∷ later else r ∷ x ∷ rest

  -- `sorted(requests, key=...)`, which is stable.
  unfoldable pub sort_requests : List (ProjectScheduleRequest Q) → List (ProjectScheduleRequest Q)
  sort_requests [] = []
  sort_requests (r ∷ rest) = insert r (sort_requests rest)

  abbrev pub assignment_of : ℕ → ProjectScheduleRequest Q → RankedAgentMatch → AgentAssignment
  assignment_of id r m = record {
    assignment_id = id;
    agent_id = m.agent_id;
    project_id = r.project_id;
    task_id = r.task_id;
    project_priority = r.project_priority;
    score = m.score;
    status = AssignmentStatus.active;
  }

  module _ {E : Type 0} (matches : Q → Result E (List RankedAgentMatch)) where
    -- The loop of `schedule`: what it returns or raises, and the scheduler it leaves.
    unfoldable pub assign_each :
        List (ProjectScheduleRequest Q)
        → List ℕ
        → Scheduler
        → Result E (List AgentAssignment) × Scheduler
    assign_each [] claimed s = (ok [], s)
    assign_each (r ∷ rest) claimed s = elim (matches r.matching_request) [
      | err e ↦ (err e, s)
      | ok found ↦ elim (select_free claimed found) [
        | none ↦ assign_each rest claimed s
        | some m ↦
            let a = assignment_of s.next_id r m in
            let (later, s') = assign_each rest (m.agent_id ∷ claimed) (take_on a s) in
            (elim later [ ok more ↦ ok (a ∷ more) | err e ↦ err e ], s')
      ]
    ]

    -- `schedule`
    unfoldable pub schedule :
        List (ProjectScheduleRequest Q) → Scheduler → Result E (List AgentAssignment) × Scheduler
    schedule requests s = assign_each (sort_requests requests) (keys s.active_by_agent) s

-- One entry of the snapshot in `release_project`.
abbrev pub release_entry : ℕ → ℕ × AgentAssignment → Scheduler → Scheduler
release_entry project e s =
    if e.1.project_id == project
    then record s {
      active_by_agent = pop e.0 s.active_by_agent;
      history =
          replace e.1.assignment_id (record e.1 { status = AssignmentStatus.released }) s.history;
    }
    else s

unfoldable pub release_each : ℕ → List (ℕ × AgentAssignment) → Scheduler → Scheduler
release_each project [] s = s
release_each project (e ∷ rest) s = release_each project rest (release_entry project e s)

abbrev pub count_released : ℕ → List (ℕ × AgentAssignment) → ℕ
count_released project [] = 0
count_released project (e ∷ rest) =
    let later = count_released project rest in
    if e.1.project_id == project then suc later else later

-- `release_project`
unfoldable pub release_project : ℕ → Scheduler → ℕ × Scheduler
release_project project s =
    (count_released project s.active_by_agent, release_each project s.active_by_agent s)
