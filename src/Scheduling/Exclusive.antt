-- ===== src/Scheduling/Exclusive.antt =====
-- What scheduling and release keep: an agent has one active assignment at most.
use synapse_os.Base.{
  append_assoc, append_nil, ℕ, ◌+◌, length, Bool, true, false, ◌&&◌, not, List, [], ◌∷◌, ◌++◌, some,
  ◌==◌, if◌then◌else◌, Result, ok, err, Result-cases, Option-cases, Bool-cases, inl, inr, ◌≡◌, ◌∙◌,
  refl, sym, ap, subst, arith,
}
use synapse_os.Scheduling.Scheduler.{
  ProjectScheduleRequest, RankedAgentMatch, AgentAssignment, Scheduler, keys, is_claimed, put, pop,
  select_free, sort_requests, assignment_of, take_on, assign_each, schedule, release_entry,
  release_each, count_released, release_project,
}

-- No number occurs twice.
abbrev pub is_distinct : List ℕ → Bool
is_distinct [] = true
is_distinct (x ∷ xs) = not (is_claimed xs x) && is_distinct xs

abbrev pub entries : List AgentAssignment → List (ℕ × AgentAssignment)
entries [] = []
entries (a ∷ rest) = (a.agent_id, a) ∷ entries rest

-- The entries that are not the project's.
abbrev pub others : ℕ → List (ℕ × AgentAssignment) → List (ℕ × AgentAssignment)
others project [] = []
others project (e ∷ rest) =
    let later = others project rest in if e.1.project_id == project then later else e ∷ later

claimed_snoc :
    (xs : List (ℕ × AgentAssignment)) (e : ℕ × AgentAssignment) (k : ℕ)
    → is_claimed (keys xs) k ≡ false
    → (k == e.0) ≡ false
    → is_claimed (keys (xs ++ e ∷ [])) k ≡ false
claimed_snoc [] e k h n = ground arith
claimed_snoc (x ∷ xs) e k h n = let rest = claimed_snoc xs e k (ground arith) n in ground arith

distinct_snoc :
    (xs : List (ℕ × AgentAssignment)) (e : ℕ × AgentAssignment)
    → is_distinct (keys xs) ≡ true
    → is_claimed (keys xs) e.0 ≡ false
    → is_distinct (keys (xs ++ e ∷ [])) ≡ true
distinct_snoc [] e d n = refl
distinct_snoc (x ∷ xs) e d n =
    let rest = distinct_snoc xs e (ground arith) (ground arith) in
    let here = claimed_snoc xs e x.0 (ground arith) (ground arith) in ground arith

put_new :
    (k : ℕ) (a : AgentAssignment) (xs : List (ℕ × AgentAssignment))
    → is_claimed (keys xs) k ≡ false
    → put k a xs ≡ xs ++ (k, a) ∷ []
put_new k a [] h = refl
put_new k a (x ∷ xs) h = let rest = put_new k a xs (ground arith) in ground arith

select_free-unclaimed :
    (claimed : List ℕ) (found : List RankedAgentMatch) (m : RankedAgentMatch)
    → select_free claimed found ≡ some m
    → is_claimed claimed m.agent_id ≡ false
select_free-unclaimed claimed [] m h = absurd (cc)
select_free-unclaimed claimed (x ∷ rest) m h = elim (Bool-cases (is_claimed claimed x.agent_id)) [
  | inl e ↦ select_free-unclaimed claimed rest m (ground arith)
  | inr e ↦
      let p : x ≡ m = ground arith in
      subst (λ (y : RankedAgentMatch). is_claimed claimed y.agent_id ≡ false) p e
]

-- Whoever is active is claimed.
abbrev Covers : List ℕ → List (ℕ × AgentAssignment) → Type 0
Covers claimed xs = (k : ℕ) → is_claimed claimed k ≡ false → is_claimed (keys xs) k ≡ false

Covers-snoc :
    (claimed : List ℕ) (xs : List (ℕ × AgentAssignment)) (e : ℕ × AgentAssignment)
    → Covers claimed xs
    → Covers (e.0 ∷ claimed) (xs ++ e ∷ [])
Covers-snoc claimed xs e c k h = claimed_snoc xs e k (c k (ground arith)) (ground arith)

module _ {Q E : Type 0} (matches : Q → Result E (List RankedAgentMatch)) where
  abbrev pub Told : Result E (List AgentAssignment) → List AgentAssignment → Type 0
  Told (ok l) made = l ≡ made
  Told (err e) made = Unit

  -- The scheduler has the new assignments after those it had, in both of its books, no agent has
  -- two, and the new ones are what is returned.
  pub record IsExtended (s : Scheduler) (out : Result E (List AgentAssignment) × Scheduler)
      : Type 0 where
    pub made : List AgentAssignment
    pub active : out.1.active_by_agent ≡ s.active_by_agent ++ entries made
    pub history : out.1.history ≡ s.history ++ made
    pub distinct : is_distinct (keys out.1.active_by_agent) ≡ true
    pub told : Told out.0 made

  none-IsExtended :
      (s : Scheduler) (o : Result E (List AgentAssignment))
      → is_distinct (keys s.active_by_agent) ≡ true
      → Told o []
      → IsExtended s (o, s)
  none-IsExtended s o d h = record {
    made = [];
    active = sym (append_nil s.active_by_agent);
    history = sym (append_nil s.history);
    distinct = d;
    told = h;
  }

  Told-cons :
      (a : AgentAssignment) (o : Result E (List AgentAssignment)) (made : List AgentAssignment)
      → Told o made
      → Told (elim o [ ok more ↦ ok (a ∷ more) | err e ↦ err e ]) (a ∷ made)
  Told-cons a (ok l) made h = ap (λ x. a ∷ x) h
  Told-cons a (err e) made h = tt

  -- One assignment, and then those of the rest.
  one-IsExtended :
      (a : AgentAssignment) (s : Scheduler) (out : Result E (List AgentAssignment) × Scheduler)
      → (take_on a s).active_by_agent ≡ s.active_by_agent ++ (a.agent_id, a) ∷ []
      → IsExtended (take_on a s) out
      → IsExtended s (elim out.0 [ ok more ↦ ok (a ∷ more) | err e ↦ err e ], out.1)
  one-IsExtended a s out new w = record {
    made = a ∷ w.made;
    active =
        w.active
        ∙ ap (λ l. l ++ entries w.made) new
        ∙ append_assoc s.active_by_agent ((a.agent_id, a) ∷ []) (entries w.made);
    history = w.history ∙ append_assoc s.history (a ∷ []) w.made;
    distinct = w.distinct;
    told = Told-cons a out.0 w.made w.told;
  }

  pub assign_each-IsExtended :
      (requests : List (ProjectScheduleRequest Q)) (claimed : List ℕ) (s : Scheduler)
      → Covers claimed s.active_by_agent
      → is_distinct (keys s.active_by_agent) ≡ true
      → IsExtended s (assign_each matches requests claimed s)
  unfolding assign_each
  assign_each-IsExtended [] claimed s c d = none-IsExtended s (ok []) d refl
  assign_each-IsExtended (r ∷ rest) claimed s c d =
      elim (Result-cases (matches r.matching_request)) [
        | inr (e, q) ↦ rw (q, assign_each) (none-IsExtended s (err e) d tt)
        | inl (found, q) ↦ elim (Option-cases (select_free claimed found)) [
          | inl p ↦ rw (q, p, assign_each) (assign_each-IsExtended rest claimed s c d)
          | inr (m, p) ↦
              let a = assignment_of s.next_id r m in
              let free = c m.agent_id (select_free-unclaimed claimed found m p) in
              let new = put_new m.agent_id a s.active_by_agent free in
              rw (q, p, assign_each)
                (one-IsExtended a s (assign_each matches rest (m.agent_id ∷ claimed) (take_on a s))
                  new
                  (assign_each-IsExtended rest (m.agent_id ∷ claimed) (take_on a s)
                    (rw new (Covers-snoc claimed s.active_by_agent (m.agent_id, a) c))
                    (rw new (distinct_snoc s.active_by_agent (m.agent_id, a) d free))))
        ]
      ]

  -- From a scheduler in which no agent has two active assignments, `schedule` leaves one in which
  -- none has, whether it returns or raises: it keeps all the active assignments and the history,
  -- adds the same new assignments to both, and returns these if it returns.
  pub schedule-IsExtended :
      (requests : List (ProjectScheduleRequest Q)) (s : Scheduler)
      → is_distinct (keys s.active_by_agent) ≡ true
      → IsExtended s (schedule matches requests s)
  unfolding schedule
  schedule-IsExtended requests s d =
      assign_each-IsExtended (sort_requests requests) (keys s.active_by_agent) s (λ k h. h) d

middle_apart :
    (k : ℕ) (kept rest : List (ℕ × AgentAssignment)) (e : ℕ × AgentAssignment)
    → is_claimed (keys (kept ++ e ∷ rest)) k ≡ false
    → ((k == e.0) ≡ false) × (is_claimed (keys (kept ++ rest)) k ≡ false)
middle_apart k [] rest e h = ground arith
middle_apart k (x ∷ kept) rest e h =
    let p = middle_apart k kept rest e (ground arith) in (p.0, ground (arith, p.1))

pop_middle :
    (kept rest : List (ℕ × AgentAssignment)) (e : ℕ × AgentAssignment)
    → is_distinct (keys (kept ++ e ∷ rest)) ≡ true
    → (pop e.0 (kept ++ e ∷ rest) ≡ kept ++ rest) × (is_distinct (keys (kept ++ rest)) ≡ true)
pop_middle [] rest e d = (ground arith, ground arith)
pop_middle (x ∷ kept) rest e d =
    let p = pop_middle kept rest e (ground arith) in
    let q = middle_apart x.0 kept rest e (ground arith) in
    (ground (arith, p.0, q.0), ground (arith, p.1, q.1))

release_each-others :
    (project : ℕ) (kept rest : List (ℕ × AgentAssignment)) (s : Scheduler)
    → s.active_by_agent ≡ kept ++ rest
    → is_distinct (keys (kept ++ rest)) ≡ true
    → (release_each project rest s).active_by_agent ≡ kept ++ others project rest
unfolding release_each
release_each-others project kept [] s h d = h
release_each-others project kept (e ∷ rest) s h d = elim (Bool-cases (e.1.project_id == project)) [
  | inl its ↦
      let p = pop_middle kept rest e d in
      let left : (release_entry project e s).active_by_agent ≡ kept ++ rest =
        rw its (ap (pop e.0) h ∙ p.0) in
      rw its (release_each-others project kept rest (release_entry project e s) left p.1)
  | inr not_its ↦
      let shifted = append_assoc kept (e ∷ []) rest in
      let same : release_entry project e s ≡ s = rw not_its refl in
      let spared : others project (e ∷ rest) ≡ e ∷ others project rest = rw not_its refl in
      ap (λ u. (release_each project rest u).active_by_agent) same
      ∙ release_each-others project (kept ++ e ∷ []) rest s (h ∙ sym shifted) (rw shifted d)
      ∙ append_assoc kept (e ∷ []) (others project rest)
      ∙ ap (λ l. kept ++ l) (sym spared)
]

counted :
    (project : ℕ) (xs : List (ℕ × AgentAssignment))
    → count_released project xs + length (others project xs) ≡ length xs
counted project [] = omega arith
counted project (e ∷ rest) = let p = counted project rest in ground (arith, p)

-- From a scheduler in which no agent has two active assignments, `release_project` takes away the
-- project's active assignments and no other, and returns how many they were.
pub release_project-others :
    (project : ℕ) (s : Scheduler)
    → is_distinct (keys s.active_by_agent) ≡ true
    → ((release_project project s).1.active_by_agent ≡ others project s.active_by_agent)
      × ((release_project project s).0 + length (release_project project s).1.active_by_agent
          ≡ length s.active_by_agent)
unfolding release_project
release_project-others project s d =
    let p = release_each-others project [] s.active_by_agent s refl d in
    (p, rw p (counted project s.active_by_agent))
