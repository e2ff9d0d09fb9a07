-- ===== src/Decomposition/Resolution.antt =====
-- The loop of `require_valid_dependency_graph` (core/domain_decomposition/types.py): it ends, and it
-- resolves everything exactly if the dependencies can be ranked.
use synapse_os.Base.{
  arith, ℕ, zero, suc, ◌≤◌, ◌<◌, Bool, true, false, not, ◌||◌, List, [], ◌∷◌, ◌++◌, some, String,
  str_eq, ltb, length, any, if◌then◌else◌, mem, is_nonempty, filter, Bool-cases, inl, inr, ◌≡◌,
  refl, sym, ◌∙◌, any-append, subst, mem-filter, is_subset-mem, mem-all, is_nonempty-filter,
  length-filter_less, any-mem, mem-any, minimum_lem,
}
use synapse_os.Decomposition.Graph.{is_ready, resolve_all}

module _ (dependencies : String → List String) where
  -- Every dependency of what remains is resolved or ranked lower.
  abbrev pub IsRanked : (String → ℕ) → List String → List String → Type 0
  IsRanked rank resolved remaining =
      (x d : String)
      → mem x remaining ≡ true
      → mem d (dependencies x) ≡ true
      → (mem d resolved || ltb (rank d) (rank x)) ≡ true

  -- Every dependency of what remains is resolved or remains.
  abbrev pub IsKnown : List String → List String → Type 0
  IsKnown resolved remaining =
      (x d : String)
      → mem x remaining ≡ true
      → mem d (dependencies x) ≡ true
      → (mem d resolved || mem d remaining) ≡ true

  module _ (resolved remaining : List String) where
    abbrev ready : List String
    ready = filter (is_ready dependencies resolved) remaining

    abbrev waiting : List String
    waiting = filter (λ x. not (mem x ready)) remaining

    -- A round with something ready leaves fewer.
    length-waiting : is_nonempty ready ≡ true → length waiting < length remaining
    length-waiting h =
        let some_ready = sym (is_nonempty-filter (is_ready dependencies resolved) remaining) ∙ h in
        let (x, within, is_now) = any-mem (is_ready dependencies resolved) remaining some_ready in
        let at = mem-filter x (is_ready dependencies resolved) remaining in
        length-filter_less (λ y. not (mem y ready)) x remaining within (ground arith)

    -- The rank of what is ready is 0, and the rest comes after it.
    shift-IsRanked :
        (rank : String → ℕ)
        → IsRanked rank (resolved ++ ready) waiting
        → IsRanked (λ x. if mem x ready then 0 else suc (rank x)) resolved remaining
    shift-IsRanked rank low x d m dep = elim (Bool-cases (mem x ready)) [
      | inl h ↦
          let at = mem-filter x (is_ready dependencies resolved) remaining in
          let now : is_ready dependencies resolved x ≡ true = ground arith in
          let q = is_subset-mem d (dependencies x) resolved now dep in ground arith
      | inr h ↦
          let at = mem-filter x (λ y. not (mem y ready)) remaining in
          let still : mem x waiting ≡ true = ground arith in
          let split = any-append (λ y. str_eq d y) resolved ready in
          let q = low x d still dep in
          elim (Bool-cases (mem d ready)) [
            | inl e ↦ rw (h, e, if◌then◌else◌) (ground arith)
            | inr e ↦ rw (h, e, if◌then◌else◌) (ground arith)
          ]
    ]

    -- What remains is still known after a round.
    step-IsKnown : IsKnown resolved remaining → IsKnown (resolved ++ ready) waiting
    step-IsKnown known x d m dep =
        let here = mem-filter x (λ y. not (mem y ready)) remaining in
        let there = mem-filter d (λ y. not (mem y ready)) remaining in
        let split = any-append (λ y. str_eq d y) resolved ready in
        let q = known x d (ground arith) dep in ground arith

    waiting-mem : (x : String) → mem x waiting ≡ true → mem x remaining ≡ true
    waiting-mem x m = let here = mem-filter x (λ y. not (mem y ready)) remaining in ground arith

    -- If what remains is known and can be ranked, the lowest is ready.
    ranked-ready :
        (rank : String → ℕ)
        → IsKnown resolved remaining
        → IsRanked rank [] remaining
        → is_nonempty remaining ≡ true
        → is_nonempty ready ≡ true
    ranked-ready rank known low h =
        is_nonempty-filter (is_ready dependencies resolved) remaining ∙ lowest remaining refl h
      where
        lowest :
            (l : List String)
            → remaining ≡ l
            → is_nonempty l ≡ true
            → any (is_ready dependencies resolved) remaining ≡ true
        lowest [] e n = absurd (cc)
        lowest (y ∷ ys) e n =
            let (m, within, least) = minimum_lem rank y ys in
            let in_remaining : mem m remaining ≡ true = rw e within in
            mem-any (is_ready dependencies resolved) m remaining in_remaining (
              mem-all (λ d. mem d resolved) (dependencies m)
                (λ d dep.
                  let known_d = known m d in_remaining dep in
                  let low_d = low m d in_remaining dep in
                  elim (Bool-cases (mem d remaining)) [
                    | inl r ↦
                        let r' : mem d (y ∷ ys) ≡ true = subst (λ l. mem d l ≡ true) e r in
                        let not_low = least d r' in absurd (ground arith)
                    | inr r ↦ ground arith
                  ]))

  -- With a round for each identifier that remains, the loop ends.
  pub resolve_all-returns :
      (fuel : ℕ) (resolved remaining : List String)
      → length remaining ≤ fuel
      → (b : Bool) × (resolve_all dependencies fuel resolved remaining ≡ some b)
  resolve_all-returns zero resolved [] h = (true, refl)
  resolve_all-returns zero resolved (x ∷ xs) h = absurd (omega arith)
  resolve_all-returns (suc fuel) resolved [] h = (true, refl)
  resolve_all-returns (suc fuel) resolved (x ∷ xs) h =
      elim (Bool-cases (is_nonempty (ready resolved (x ∷ xs)))) [
        | inr e ↦ (false, rw (e, if◌then◌else◌) refl)
        | inl e ↦
            let less = length-waiting resolved (x ∷ xs) e in
            let (b, q) =
              resolve_all-returns fuel (resolved ++ ready resolved (x ∷ xs))
                (waiting resolved (x ∷ xs)) (omega arith) in
            (b, rw (e, if◌then◌else◌) q)
      ]

  -- If the loop resolves everything, the rounds rank what remained.
  pub resolve_all-IsRanked :
      (fuel : ℕ) (resolved remaining : List String)
      → resolve_all dependencies fuel resolved remaining ≡ some true
      → (rank : String → ℕ) × IsRanked rank resolved remaining
  resolve_all-IsRanked zero resolved [] h = ((λ x. 0), (λ x d m dep. absurd (cc)))
  resolve_all-IsRanked zero resolved (x ∷ xs) h = absurd (cc)
  resolve_all-IsRanked (suc fuel) resolved [] h = ((λ x. 0), (λ x d m dep. absurd (cc)))
  resolve_all-IsRanked (suc fuel) resolved (x ∷ xs) h =
      elim (Bool-cases (is_nonempty (ready resolved (x ∷ xs)))) [
        | inr e ↦ absurd (ground arith)
        | inl e ↦
            let (rank, low) =
              resolve_all-IsRanked fuel (resolved ++ ready resolved (x ∷ xs))
                (waiting resolved (x ∷ xs)) (ground arith) in
            (
              (λ y. if mem y (ready resolved (x ∷ xs)) then 0 else suc (rank y)),
              shift-IsRanked resolved (x ∷ xs) rank low,
            )
      ]

  -- If what remains is known and can be ranked, the loop resolves everything.
  pub IsRanked-resolve_all :
      (fuel : ℕ) (resolved remaining : List String) (rank : String → ℕ)
      → length remaining ≤ fuel
      → IsKnown resolved remaining
      → IsRanked rank [] remaining
      → resolve_all dependencies fuel resolved remaining ≡ some true
  IsRanked-resolve_all zero resolved [] rank h known low = refl
  IsRanked-resolve_all zero resolved (x ∷ xs) rank h known low = absurd (omega arith)
  IsRanked-resolve_all (suc fuel) resolved [] rank h known low = refl
  IsRanked-resolve_all (suc fuel) resolved (x ∷ xs) rank h known low =
      let e = ranked-ready resolved (x ∷ xs) rank known low refl in
      let less = length-waiting resolved (x ∷ xs) e in
      let q =
        IsRanked-resolve_all fuel (resolved ++ ready resolved (x ∷ xs)) (waiting resolved (x ∷ xs))
          rank (omega arith) (step-IsKnown resolved (x ∷ xs) known)
          (λ y d m dep. low y d (waiting-mem resolved (x ∷ xs) y m) dep) in
      rw (e, if◌then◌else◌) q
