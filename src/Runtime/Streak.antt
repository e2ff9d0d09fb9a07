-- ===== src/Runtime/Streak.antt =====
-- When the stagnation detector of core/runtime/stagnation.py reports a stagnating loop.
use synapse_os.Base.{
  ℕ, zero, suc, ◌≤◌, ◌<◌, min, true, List, [], ◌∷◌, ◌==◌, ==_iff, length, take, if◌then◌else◌, ◌≡◌,
  refl, sym, ap, subst, ◌∙◌, arith, ◌↔◌, Bool-cases, inl, inr,
}
use native.Mathlib.Numerals.{unary_clauses}
use synapse_os.Runtime.Stagnation.{keep_equal, observe_digest, observe_all, streak}

copies : {A : Type 0} → ℕ → A → List A
copies zero x = []
copies (suc n) x = x ∷ copies n x

take-copies : {A : Type 0} (n m : ℕ) (x : A) → take n (copies m x) ≡ copies (min n m) x
unfolding copies
take-copies zero m x = simp unary_clauses refl
take-copies (suc n) zero x = simp unary_clauses refl
take-copies (suc n) (suc m) x = simp (unary_clauses, take-copies n m x) refl

length-copies : {A : Type 0} (n : ℕ) (x : A) → length (copies n x) ≡ n
unfolding copies
length-copies zero x = refl
length-copies (suc n) x = rw (length-copies n x) refl

keep_equal-copies :
    (n digest d : ℕ)
    → keep_equal digest (copies (suc n) d) ≡ (if d == digest then copies (suc n) digest else [])
unfolding keep_equal copies
keep_equal-copies n digest d = elim (Bool-cases (d == digest)) [
  | inl e ↦ rw (e, if◌then◌else◌, (==_iff d digest).0 e) refl
  | inr e ↦ rw (e, if◌then◌else◌) refl
]

-- One more digest after `suc m` equal ones.
observe_digest-copies :
    (k digest d m : ℕ)
    → (observe_digest (suc k) digest (copies (suc m) d)).0
      ≡ copies (min (suc k) (if d == digest then suc (suc m) else 1)) digest
unfolding observe_digest copies
observe_digest-copies k digest d m = elim (Bool-cases (d == digest)) [
  | inl e ↦
      rw (keep_equal-copies m digest d, e, if◌then◌else◌) (take-copies (suc k) (suc (suc m)) digest)
  | inr e ↦ rw (keep_equal-copies m digest d, e, if◌then◌else◌) (take-copies (suc k) 1 digest)
]

streak_step :
    (k digest newest : ℕ) (older : List ℕ)
    → min (suc k) (if newest == digest then suc (suc (min k (streak newest older))) else 1)
      ≡ min (suc k) (suc (streak digest (newest ∷ older)))
streak_step k digest newest older = elim (Bool-cases (newest == digest)) [
  | inl e ↦ rw (e, if◌then◌else◌, (==_iff newest digest).0 e) (omega arith)
  | inr e ↦ rw (e, if◌then◌else◌) refl
]

-- The digests that the detector keeps are those of the newest streak, up to the window.
observe_all-copies :
    (k digest : ℕ) (older : List ℕ)
    → (observe_all (suc k) (digest ∷ older)).0
      ≡ copies (min (suc k) (suc (streak digest older))) digest
unfolding observe_digest keep_equal copies
observe_all-copies k digest [] = take-copies (suc k) 1 digest
observe_all-copies k digest (newest ∷ older) =
    let m = min k (streak newest older) in
    let size : suc m ≡ min (suc k) (suc (streak newest older)) = omega arith in
    let kept : (observe_all (suc k) (newest ∷ older)).0 ≡ copies (suc m) newest =
      subst (λ n. (observe_all (suc k) (newest ∷ older)).0 ≡ copies n newest) (sym size)
        (observe_all-copies k newest older) in
    ap (λ o. (observe_digest (suc k) digest o).0) kept
    ∙ observe_digest-copies k digest newest m
    ∙ ap (λ n. copies n digest) (streak_step k digest newest older)

observe_digest-full :
    (window digest : ℕ) (digests : List ℕ)
    → (observe_digest window digest digests).1
      ≡ (length (observe_digest window digest digests).0 == window)
unfolding observe_digest
observe_digest-full window digest digests = refl

-- For a window of at least one: after a step with a given digest, the detector reports stagnation
-- exactly if that step and the steps straight before it with the same digest are as many as the
-- window or more.
pub stagnates_iff :
    (window digest : ℕ) (older : List ℕ)
    → 0 < window
    → ((observe_all window (digest ∷ older)).1 ≡ true) ↔ (window ≤ suc (streak digest older))
stagnates_iff zero digest older h = absurd (omega arith)
stagnates_iff (suc k) digest older h =
    let n = min (suc k) (suc (streak digest older)) in
    rw
      (
        observe_digest-full (suc k) digest (observe_all (suc k) older).0,
        observe_all-copies k digest older,
        length-copies n digest,
      )
      (ground arith)
