-- ===== src/Career/Coherent.antt =====
-- That the recommendations of core/career/policy.py do not contradict one another.
use synapse_os.Base.{
  ℕ, ◌+◌, ◌-◌, ◌≤◌, Bool, true, false, ◌&&◌, ◌||◌, ltb, leb, List, [], ◌∷◌, ◌++◌, Option, none,
  some, any, all, length, length-append, ◌≡◌, refl, ◌∙◌, sym, any-append, arith,
}
use synapse_os.Matching.Matcher.{seniority_rank}
use synapse_os.Career.Policy.{
  CareerAction, CareerMetrics, CareerRecommendation, seniority_above, seniority_below, is_strong,
  is_weak, has_incident, plain, with_seniority, with_autonomy, append_if, recommend,
}

-- The recommendation gives the agent more responsibility.
abbrev pub is_advance : CareerAction → Bool
is_advance CareerAction.promotion = true
is_advance CareerAction.autonomy_increase = true
is_advance _ = false

abbrev pub advances : CareerRecommendation → Bool
advances r = is_advance r.action

-- The recommendation takes responsibility away, or asks for care.
abbrev pub is_caution : CareerAction → Bool
is_caution CareerAction.promotion = false
is_caution CareerAction.autonomy_increase = false
is_caution _ = true

abbrev pub cautions : CareerRecommendation → Bool
cautions r = is_caution r.action

all-append :
    (p : CareerRecommendation → Bool) (xs ys : List CareerRecommendation)
    → all p xs ≡ true
    → all p ys ≡ true
    → all p (xs ++ ys) ≡ true
all-append p [] ys h k = k
all-append p (x ∷ xs) ys h k = let later = all-append p xs ys (ground arith) k in ground arith

any-append_if :
    (p : CareerRecommendation → Bool) (b : Bool) (xs : List CareerRecommendation)
    → any p (append_if b xs) ≡ (b && any p xs)
any-append_if p true xs = refl
any-append_if p false xs = refl

all-append_if :
    (p : CareerRecommendation → Bool) (b : Bool) (xs : List CareerRecommendation)
    → (b ≡ true → all p xs ≡ true)
    → all p (append_if b xs) ≡ true
all-append_if p true xs h = h refl
all-append_if p false xs h = refl

length-append_if : (b : Bool) (xs : List CareerRecommendation) → length (append_if b xs) ≤ length xs
length-append_if true xs = omega arith
length-append_if false xs = omega arith

five_apart :
    (p : CareerRecommendation → Bool) (xs ys zs us vs : List CareerRecommendation)
    → any p (xs ++ (ys ++ (zs ++ (us ++ vs))))
      ≡ (any p xs || (any p ys || (any p zs || (any p us || any p vs))))
five_apart p xs ys zs us vs =
    rw (any-append p xs _, any-append p ys _, any-append p zs _, any-append p us _) refl

-- Which of the groups counts.
any_groups :
    (p : CareerRecommendation → Bool) (a b c d e : Bool)
    (xs ys zs us vs : List CareerRecommendation)
    → any p (
        append_if a xs
        ++ (append_if b ys ++ (append_if c zs ++ (append_if d us ++ append_if e vs))))
      ≡ (a && any p xs || (b && any p ys || (c && any p zs || (d && any p us || e && any p vs))))
any_groups p a b c d e xs ys zs us vs =
    five_apart p (append_if a xs) (append_if b ys) (append_if c zs) (append_if d us)
      (append_if e vs)
    ∙ rw
        (
          any-append_if p a xs,
          any-append_if p b ys,
          any-append_if p c zs,
          any-append_if p d us,
          any-append_if p e vs,
        )
        refl

-- A recommendation that advances the agent comes with none that takes responsibility away or asks
-- for care.
pub recommend-advances :
    (m : CareerMetrics) → any advances (recommend m) ≡ true → any cautions (recommend m) ≡ false
unfolding recommend
recommend-advances m h =
    let strong = is_strong m in
    let up = strong && ltb (seniority_rank m.seniority) 5 in
    let more = strong && ltb m.autonomy_level 5 in
    let reviewed = has_incident m || ltb 0 m.review_failures in
    let mentored = is_weak m || has_incident m in
    let forward = sym (any_groups advances up more (is_weak m) reviewed mentored _ _ _ _ _) ∙ h in
    any_groups cautions up more (is_weak m) reviewed mentored _ _ _ _ _ ∙ ground arith

-- The level that a recommendation proposes is at most five.
abbrev pub is_level : Option ℕ → Bool
is_level none = true
is_level (some level) = leb level 5

abbrev pub is_valid_recommendation : CareerRecommendation → Bool
is_valid_recommendation r = is_level r.proposed_autonomy_level

all_groups :
    (p : CareerRecommendation → Bool) (a b c d e : Bool)
    (xs ys zs us vs : List CareerRecommendation)
    → (a ≡ true → all p xs ≡ true)
    → (b ≡ true → all p ys ≡ true)
    → (c ≡ true → all p zs ≡ true)
    → (d ≡ true → all p us ≡ true)
    → (e ≡ true → all p vs ≡ true)
    → all p (
        append_if a xs
        ++ (append_if b ys ++ (append_if c zs ++ (append_if d us ++ append_if e vs))))
      ≡ true
all_groups p a b c d e xs ys zs us vs ha hb hc hd he =
    let i =
      all-append p (append_if d us) (append_if e vs) (all-append_if p d us hd)
        (all-append_if p e vs he) in
    let j = all-append p (append_if c zs) _ (all-append_if p c zs hc) i in
    let k = all-append p (append_if b ys) _ (all-append_if p b ys hb) j in
    all-append p (append_if a xs) _ (all-append_if p a xs ha) k

length_groups :
    (a b c d e : Bool) (xs ys zs us vs : List CareerRecommendation)
    → length (
        append_if a xs
        ++ (append_if b ys ++ (append_if c zs ++ (append_if d us ++ append_if e vs))))
      ≤ length xs + (length ys + (length zs + (length us + length vs)))
length_groups a b c d e xs ys zs us vs =
    let p =
      length-append (append_if a xs)
        (append_if b ys ++ (append_if c zs ++ (append_if d us ++ append_if e vs))) in
    let q = length-append (append_if b ys) (append_if c zs ++ (append_if d us ++ append_if e vs)) in
    let r = length-append (append_if c zs) (append_if d us ++ append_if e vs) in
    let s = length-append (append_if d us) (append_if e vs) in
    let p1 = length-append_if a xs in
    let p2 = length-append_if b ys in
    let p3 = length-append_if c zs in
    let p4 = length-append_if d us in let p5 = length-append_if e vs in omega arith

-- From a level of at most five, the recommendations propose levels of at most five, and there are no
-- more than eight of them.
pub recommend-is_valid :
    (m : CareerMetrics)
    → m.autonomy_level ≤ 5
    → (all is_valid_recommendation (recommend m) ≡ true) × (length (recommend m) ≤ 8)
unfolding recommend
recommend-is_valid m h =
    let p = is_valid_recommendation in
    let up = is_strong m && ltb (seniority_rank m.seniority) 5 in
    let more = is_strong m && ltb m.autonomy_level 5 in
    let reviewed = has_incident m || ltb 0 m.review_failures in
    let mentored = is_weak m || has_incident m in
    let promoted = with_seniority CareerAction.promotion (seniority_above m.seniority) ∷ [] in
    let raised = with_autonomy CareerAction.autonomy_increase (m.autonomy_level + 1) ∷ [] in
    let lowered =
      with_seniority CareerAction.demotion (seniority_below m.seniority)
      ∷ with_autonomy CareerAction.autonomy_reduction (m.autonomy_level - 1)
      ∷ [] in
    let watched =
      plain CareerAction.mandatory_review ∷ plain CareerAction.capability_restriction ∷ [] in
    let helped = plain CareerAction.mentoring ∷ [] in
    let few =
      length_groups up more (is_weak m) reviewed mentored promoted raised lowered watched helped in
    (
      all_groups p up more (is_weak m) reviewed mentored promoted raised lowered watched helped
          (λ e. refl) (λ e. ground arith) (λ e. ground arith) (λ e. refl) (λ e. refl),
      omega arith,
    )
