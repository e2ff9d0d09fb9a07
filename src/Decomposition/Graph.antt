-- ===== src/Decomposition/Graph.antt =====
-- `DomainDecomposition` of core/domain_decomposition/types.py and its validator
-- `require_valid_dependency_graph`. Dictionaries are lists of pairs.
use synapse_os.Base.{
  ℕ, zero, suc, ◌+◌, Bool, true, false, not, List, [], ◌∷◌, ◌++◌, map, Option, none, some, String,
  str_eq, ltb, length, any, all, if◌then◌else◌, Result, ok, err, mem, is_subset, is_unique,
  is_nonempty, filter,
}

-- The fields of `DomainWorkstream` that the graph is made of.
pub record DomainWorkstream : Type 0 where
  pub id : String
  pub name : String
  pub source_domains : List String
  pub dependencies : List String

-- What the validator raises.
pub data GraphError : Type 0 where
  repeated_identifier repeated_name unknown_dependency fragmented_domain cyclic : GraphError

-- `dependencies[identifier]`, where every identifier that is asked for is a key; of two values for a
-- key the later one counts.
abbrev pub dependencies_of : List DomainWorkstream → String → List String
dependencies_of [] identifier = []
dependencies_of (w ∷ rest) identifier =
    let later = dependencies_of rest identifier in
    if mem identifier (map (λ (v : DomainWorkstream). v.id) rest)
    then later
    else if str_eq identifier w.id
    then w.dependencies
    else []

-- `counts[domain] = counts.get(domain, 0) + 1`
abbrev pub count_domain : String → List (String × ℕ) → List (String × ℕ)
count_domain domain [] = (domain, 1) ∷ []
count_domain domain (c ∷ rest) =
    let later = count_domain domain rest in
    if str_eq domain c.0 then (c.0, c.1 + 1) ∷ rest else c ∷ later

abbrev pub count_each : List String → List (String × ℕ) → List (String × ℕ)
count_each [] counts = counts
count_each (domain ∷ rest) counts = count_each rest (count_domain domain counts)

-- `casefold` is the text's method of that name.
abbrev pub domain_counts :
    (String → String) → List DomainWorkstream → List (String × ℕ) → List (String × ℕ)
domain_counts casefold [] counts = counts
domain_counts casefold (w ∷ rest) counts =
    domain_counts casefold rest (count_each (map casefold w.source_domains) counts)

abbrev pub is_ready : (String → List String) → List String → String → Bool
is_ready dependencies resolved identifier = is_subset (dependencies identifier) resolved

-- The `while` loop, with the rounds that are left: whether it ends with nothing remaining.
abbrev pub resolve_all : (String → List String) → ℕ → List String → List String → Option Bool
resolve_all dependencies zero resolved [] = some true
resolve_all dependencies zero resolved (x ∷ xs) = none
resolve_all dependencies (suc fuel) resolved [] = some true
resolve_all dependencies (suc fuel) resolved (x ∷ xs) =
    let ready = filter (is_ready dependencies resolved) (x ∷ xs) in
    let later =
      resolve_all dependencies fuel (resolved ++ ready)
        (filter (λ identifier. not (mem identifier ready)) (x ∷ xs)) in
    if is_nonempty ready then later else some false

abbrev pub identifiers : List DomainWorkstream → List String
identifiers workstreams = map (λ (w : DomainWorkstream). w.id) workstreams

-- What the end of the loop means.
abbrev pub verdict : Option Bool → Option (Result GraphError (Unit {0}))
verdict none = none
verdict (some false) = some (err cyclic)
verdict (some true) = some (ok tt)

module _ (casefold : String → String) (workstreams : List DomainWorkstream) where
  abbrev pub has_unique_names : Bool
  has_unique_names = is_unique (map (λ (w : DomainWorkstream). casefold w.name) workstreams)

  abbrev pub is_fragmented : Bool
  is_fragmented = any (λ count. ltb 4 count.1) (domain_counts casefold workstreams [])

  abbrev pub has_known_dependencies : Bool
  has_known_dependencies =
      all (λ (w : DomainWorkstream). is_subset w.dependencies (identifiers workstreams)) workstreams

  -- One round for each identifier; nothing if the rounds do not suffice.
  unfoldable pub require_valid_dependency_graph : Option (Result GraphError (Unit {0}))
  require_valid_dependency_graph =
      if not (is_unique (identifiers workstreams))
      then some (err repeated_identifier)
      else if not has_unique_names
      then some (err repeated_name)
      else if not has_known_dependencies
      then some (err unknown_dependency)
      else if is_fragmented
      then some (err fragmented_domain)
      else verdict (
          resolve_all (dependencies_of workstreams) (length workstreams) []
            (identifiers workstreams))
