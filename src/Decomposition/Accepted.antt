-- ===== src/Decomposition/Accepted.antt =====
-- What `require_valid_dependency_graph` (core/domain_decomposition/types.py) accepts.
use synapse_os.Base.{
  arith, ℕ, zero, suc, ◌≤◌, ◌<◌, Bool, true, false, not, List, [], ◌∷◌, Option, none, some, String,
  str_eq, length, all, get_elem?, if◌then◌else◌, mem, is_subset, is_unique, to_set, Bool-cases, inl,
  inr, ◌≡◌, ◌↔◌, refl, sym, ap, ap₂, subst, ◌∙◌, is_subset-mem, mem_self, eq_iff, eq_refl, Result,
  ok, err,
}
use synapse_os.Decomposition.Graph.{
  DomainWorkstream, GraphError, verdict, dependencies_of, resolve_all, identifiers,
  has_unique_names, is_fragmented, has_known_dependencies, require_valid_dependency_graph,
}
use synapse_os.Decomposition.Resolution.{
  IsKnown, IsRanked, resolve_all-returns, resolve_all-IsRanked, IsRanked-resolve_all,
}

length-to_set : (xs : List String) → length (to_set xs) ≤ length xs
length-to_set [] = omega arith
length-to_set (x ∷ xs) = ground (arith, length-to_set xs)

unique_tail :
    (x : String) (xs : List String)
    → is_unique (x ∷ xs) ≡ true
    → (mem x xs ≡ false) × (is_unique xs ≡ true)
unique_tail x xs h = let bound = length-to_set xs in ground (arith, bound)

mem-identifiers :
    (workstreams : List DomainWorkstream) (i : ℕ) (w : DomainWorkstream)
    → get_elem? workstreams i ≡ some w
    → mem w.id (identifiers workstreams) ≡ true
mem-identifiers [] i w e = absurd (cc)
mem-identifiers (v ∷ rest) zero w e =
    let same_w : v ≡ w = cc in
    let same : v.id ≡ w.id = ap (λ (u : DomainWorkstream). u.id) same_w in
    rw same (mem_self w.id (identifiers rest))
mem-identifiers (v ∷ rest) (suc i) w e = let later = mem-identifiers rest i w e in ground arith

identified :
    (workstreams : List DomainWorkstream) (x : String)
    → mem x (identifiers workstreams) ≡ true
    → (i : ℕ) × (w : DomainWorkstream) × (get_elem? workstreams i ≡ some w) × (w.id ≡ x)
identified [] x m = absurd (cc)
identified (v ∷ rest) x m = elim (Bool-cases (str_eq x v.id)) [
  | inl e ↦ (0, v, refl, sym ((eq_iff x v.id).0 e))
  | inr e ↦ let (i, w, at, same) = identified rest x (ground arith) in (suc i, w, at, same)
]

-- Where identifiers are unique, the dictionary holds what each workstream declares.
dependencies_of-get :
    (workstreams : List DomainWorkstream) (i : ℕ) (w : DomainWorkstream)
    → is_unique (identifiers workstreams) ≡ true
    → get_elem? workstreams i ≡ some w
    → dependencies_of workstreams w.id ≡ w.dependencies
dependencies_of-get [] i w u e = absurd (cc)
dependencies_of-get (v ∷ rest) zero w u e =
    let (new, _) = unique_tail v.id (identifiers rest) u in
    let same : v ≡ w = cc in
    subst (λ (z : DomainWorkstream). dependencies_of (v ∷ rest) z.id ≡ z.dependencies) same
      (rw (new, if◌then◌else◌, eq_refl v.id, if◌then◌else◌) refl)
dependencies_of-get (v ∷ rest) (suc i) w u e =
    let (_, later) = unique_tail v.id (identifiers rest) u in
    let here = mem-identifiers rest i w e in
    rw (here, if◌then◌else◌) (dependencies_of-get rest i w later e)

known_get :
    (known : List String) (workstreams : List DomainWorkstream) (i : ℕ) (w : DomainWorkstream)
    → all (λ (v : DomainWorkstream). is_subset v.dependencies known) workstreams ≡ true
    → get_elem? workstreams i ≡ some w
    → is_subset w.dependencies known ≡ true
known_get known [] i w h e = absurd (cc)
known_get known (v ∷ rest) zero w h e =
    let same : v ≡ w = cc in
    subst (λ (z : DomainWorkstream). is_subset z.dependencies known ≡ true) same (ground arith)
known_get known (v ∷ rest) (suc i) w h e = known_get known rest i w (ground arith) e

length-identifiers :
    (workstreams : List DomainWorkstream) → length (identifiers workstreams) ≡ length workstreams
length-identifiers [] = refl
length-identifiers (w ∷ rest) = ap (λ n. suc n) (length-identifiers rest)

-- The validator's tests, one after the other.
abbrev Verdict : Type 0
Verdict = Option (Result GraphError (Unit {0}))

abbrev tests : Bool → Bool → Bool → Bool → Verdict → Verdict
tests ids names known fragmented end =
    if not ids
    then some (err GraphError.repeated_identifier)
    else if not names
    then some (err GraphError.repeated_name)
    else if not known
    then some (err GraphError.unknown_dependency)
    else if fragmented
    then some (err GraphError.fragmented_domain)
    else end

tests_return :
    (ids names known fragmented : Bool) (b : Bool)
    → (r : Result GraphError (Unit {0})) × (tests ids names known fragmented (verdict (some b))
        ≡ some r)
tests_return false names known fragmented b = (err GraphError.repeated_identifier, refl)
tests_return true false known fragmented b = (err GraphError.repeated_name, refl)
tests_return true true false fragmented b = (err GraphError.unknown_dependency, refl)
tests_return true true true true b = (err GraphError.fragmented_domain, refl)
tests_return true true true false false = (err GraphError.cyclic, refl)
tests_return true true true false true = (ok tt, refl)

tests_ok :
    (ids names known fragmented : Bool) (o : Option Bool)
    → tests ids names known fragmented (verdict o) ≡ some (ok tt)
    → (ids ≡ true) × (names ≡ true) × (known ≡ true) × (fragmented ≡ false) × (o ≡ some true)
tests_ok false names known fragmented o h = absurd (cc)
tests_ok true false known fragmented o h = absurd (cc)
tests_ok true true false fragmented o h = absurd (cc)
tests_ok true true true true o h = absurd (cc)
tests_ok true true true false none h = absurd (cc)
tests_ok true true true false (some false) h = absurd (cc)
tests_ok true true true false (some true) h = (refl, refl, refl, refl, refl)

-- The validator ends, with an answer.
pub require_valid_dependency_graph-returns :
    (casefold : String → String) (workstreams : List DomainWorkstream)
    → (r : Result GraphError (Unit {0})) × (require_valid_dependency_graph casefold workstreams
        ≡ some r)
unfolding require_valid_dependency_graph
require_valid_dependency_graph-returns casefold workstreams =
    let (b, e) =
      resolve_all-returns (dependencies_of workstreams) (length workstreams) []
        (identifiers workstreams) (let l = length-identifiers workstreams in omega arith) in
    rw e (
      tests_return (is_unique (identifiers workstreams)) (has_unique_names casefold workstreams)
        (has_known_dependencies casefold workstreams) (is_fragmented casefold workstreams) b)

module _ (workstreams : List DomainWorkstream) where
  -- The workstreams can be ranked such that each comes after all that it depends on.
  abbrev pub IsAcyclic : Type 0
  IsAcyclic =
      (rank : String → ℕ) × ((i : ℕ) (w : DomainWorkstream) (d : String)
        → get_elem? workstreams i ≡ some w
        → mem d w.dependencies ≡ true
        → rank d < rank w.id)

  -- A ranking of the identifiers is one of the workstreams, and back.
  ranked_acyclic :
      is_unique (identifiers workstreams) ≡ true
      → (rank : String → ℕ) × IsRanked
          (dependencies_of workstreams)
          rank
          []
          (identifiers workstreams)
      → IsAcyclic
  ranked_acyclic u (rank, low) = (
    rank,
    (λ i w d at dep.
        let here = mem-identifiers workstreams i w at in
        let e = dependencies_of-get workstreams i w u at in
        let q = low w.id d here (subst (λ l. mem d l ≡ true) (sym e) dep) in ground arith),
  )

  acyclic-IsRanked :
      is_unique (identifiers workstreams) ≡ true
      → (a : IsAcyclic) → IsRanked (dependencies_of workstreams) a.0 [] (identifiers workstreams)
  acyclic-IsRanked u (rank, low) x d m dep =
      let (i, w, at, same) = identified workstreams x m in
      let e = dependencies_of-get workstreams i w u at in
      let here : mem d w.dependencies ≡ true =
        subst (λ l. mem d l ≡ true) (ap (dependencies_of workstreams) (sym same) ∙ e) dep in
      let less = low i w d at here in let at_x = ap rank same in ground arith

  IsKnown-IsKnown :
      is_unique (identifiers workstreams) ≡ true
      → all
          (λ (v : DomainWorkstream). is_subset v.dependencies (identifiers workstreams))
          workstreams
        ≡ true
      → IsKnown (dependencies_of workstreams) [] (identifiers workstreams)
  IsKnown-IsKnown u h x d m dep =
      let (i, w, at, same) = identified workstreams x m in
      let e = dependencies_of-get workstreams i w u at in
      let here : mem d w.dependencies ≡ true =
        subst (λ l. mem d l ≡ true) (ap (dependencies_of workstreams) (sym same) ∙ e) dep in
      is_subset-mem d w.dependencies (identifiers workstreams)
        (known_get (identifiers workstreams) workstreams i w h at) here

-- The validator accepts the workstreams exactly if their identifiers are unique, and so are their
-- names without regard to case, every dependency is the identifier of a workstream, no domain has
-- more than four workstreams, and the workstreams can be ranked such that each comes after all that
-- it depends on.
pub require_valid_dependency_graph_iff :
    (casefold : String → String) (workstreams : List DomainWorkstream)
    → (require_valid_dependency_graph casefold workstreams ≡ some (ok tt)) ↔ (
        (is_unique (identifiers workstreams) ≡ true)
        × (has_unique_names casefold workstreams ≡ true)
        × (has_known_dependencies casefold workstreams ≡ true)
        × (is_fragmented casefold workstreams ≡ false)
        × IsAcyclic workstreams)
unfolding require_valid_dependency_graph
require_valid_dependency_graph_iff casefold workstreams = (to, from)
  where
    to :
        require_valid_dependency_graph casefold workstreams ≡ some (ok tt)
        → (is_unique (identifiers workstreams) ≡ true)
          × (has_unique_names casefold workstreams ≡ true)
          × (has_known_dependencies casefold workstreams ≡ true)
          × (is_fragmented casefold workstreams ≡ false)
          × IsAcyclic workstreams
    to h =
        let (u, names, known, whole, e) =
          tests_ok (is_unique (identifiers workstreams)) (has_unique_names casefold workstreams)
            (has_known_dependencies casefold workstreams) (is_fragmented casefold workstreams)
            (resolve_all (dependencies_of workstreams) (length workstreams) []
              (identifiers workstreams))
            h in
        (
          u,
          names,
          known,
          whole,
          ranked_acyclic workstreams u (
              resolve_all-IsRanked (dependencies_of workstreams) (length workstreams) []
                (identifiers workstreams) e),
        )

    from :
        (is_unique (identifiers workstreams) ≡ true)
          × (has_unique_names casefold workstreams ≡ true)
          × (has_known_dependencies casefold workstreams ≡ true)
          × (is_fragmented casefold workstreams ≡ false)
          × IsAcyclic workstreams
        → require_valid_dependency_graph casefold workstreams ≡ some (ok tt)
    from (u, names, known, whole, acyclic) =
        let l = length-identifiers workstreams in
        let e =
          IsRanked-resolve_all (dependencies_of workstreams) (length workstreams) []
            (identifiers workstreams) acyclic.0 (omega arith) (IsKnown-IsKnown workstreams u known)
            (acyclic-IsRanked workstreams u acyclic) in
        ap₂
          (λ ids names.
            tests ids names (has_known_dependencies casefold workstreams)
              (is_fragmented casefold workstreams)
              (verdict (
                resolve_all (dependencies_of workstreams) (length workstreams) []
                  (identifiers workstreams))))
          u names
        ∙ ap₂
            (λ known fragmented. tests true true known fragmented (
              verdict (
                resolve_all (dependencies_of workstreams) (length workstreams) []
                  (identifiers workstreams))))
            known whole
        ∙ ap verdict e
