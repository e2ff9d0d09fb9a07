-- ===== src/Base/Sets.antt =====
-- Python's sets of texts, as lists: membership, inclusion, and tests that a sequence repeats nothing.
use Prim.Native.Nat.{ℕ, ◌≤◌, ◌<◌}
use Prim.Native.String.{String}
use mathlib.Core.Path.{◌≡◌, refl, sym, ap, subst}
use mathlib.Core.Logic.{◌⊎◌, inl, inr}
use mathlib.Core.Bool.{Bool, true, false, ◌&&◌, ◌||◌}
use mathlib.Core.List.{List, [], ◌∷◌, ◌++◌}
use native.Mathlib.Omega.{arith}
use text.Mathlib.Text.{◌==◌ as str_eq}
use text.Mathlib.TextEquality.{eq_iff}
use text.Mathlib.TextPositions.{eq_refl}
use synapse_os.Base.Tests.{leb, if◌then◌else◌, ◌==◌, Bool-cases}
use synapse_os.Base.Lists.{any, all, length}

abbrev pub mem : String → List String → Bool
mem x xs = any (str_eq x) xs

abbrev pub is_subset : List String → List String → Bool
is_subset xs ys = all (λ x. mem x ys) xs

abbrev pub filter {ℓ} : {A : Type ℓ} → (A → Bool) → List A → List A
filter p [] = []
filter p (x ∷ xs) = let rest = filter p xs in if p x then x ∷ rest else rest

-- `set(xs)`
abbrev pub to_set : List String → List String
to_set [] = []
to_set (x ∷ xs) = let rest = to_set xs in if mem x xs then rest else x ∷ rest

-- `len(xs) == len(set(xs))`
abbrev pub is_unique : List String → Bool
is_unique xs = length xs == length (to_set xs)

pub any-append {ℓ} :
    {A : Type ℓ} (p : A → Bool) (xs ys : List A) → any p (xs ++ ys) ≡ (any p xs || any p ys)
any-append p [] ys = refl
any-append p (x ∷ xs) ys = ground (arith, any-append p xs ys)

pub mem_self : (x : String) (xs : List String) → mem x (x ∷ xs) ≡ true
mem_self x xs = rw (eq_refl x) refl

pub mem-filter :
    (x : String) (p : String → Bool) (xs : List String) → mem x (filter p xs) ≡ (mem x xs && p x)
mem-filter x p [] = refl
mem-filter x p (y ∷ ys) = elim (Bool-cases (str_eq x y)) [
  | inl h ↦
      let same : x ≡ y = (eq_iff x y).0 h in
      let at_x : p x ≡ p y = ap p same in ground (arith, mem-filter x p ys)
  | inr h ↦ ground (arith, mem-filter x p ys)
]

pub is_subset-mem :
    (x : String) (xs ys : List String) → is_subset xs ys ≡ true → mem x xs ≡ true → mem x ys ≡ true
is_subset-mem x [] ys h m = absurd (cc)
is_subset-mem x (y ∷ xs) ys h m = elim (Bool-cases (str_eq x y)) [
  | inl e ↦ subst (λ z. mem z ys ≡ true) (sym ((eq_iff x y).0 e)) (ground arith)
  | inr e ↦ is_subset-mem x xs ys (ground arith) (ground arith)
]

pub mem-all :
    (p : String → Bool) (xs : List String)
    → ((x : String) → mem x xs ≡ true → p x ≡ true)
    → all p xs ≡ true
mem-all p [] h = refl
mem-all p (x ∷ xs) h =
    let first = h x (mem_self x xs) in
    let rest = mem-all p xs (λ y m. h y (ground arith)) in ground (arith, first, rest)

abbrev pub is_nonempty {ℓ} : {A : Type ℓ} → List A → Bool
is_nonempty [] = false
is_nonempty (x ∷ xs) = true

pub is_nonempty-filter {ℓ} :
    {A : Type ℓ} (p : A → Bool) (xs : List A) → is_nonempty (filter p xs) ≡ any p xs
is_nonempty-filter p [] = refl
is_nonempty-filter p (x ∷ xs) = ground (arith, is_nonempty-filter p xs)

pub length-filter {ℓ} : {A : Type ℓ} (p : A → Bool) (xs : List A) → length (filter p xs) ≤ length xs
length-filter p [] = omega arith
length-filter p (x ∷ xs) = ground (arith, length-filter p xs)

-- Filtering one item out makes a list shorter.
pub length-filter_less :
    (p : String → Bool) (x : String) (xs : List String)
    → mem x xs ≡ true
    → p x ≡ false
    → length (filter p xs) < length xs
length-filter_less p x [] m h = absurd (cc)
length-filter_less p x (y ∷ ys) m h = elim (Bool-cases (str_eq x y)) [
  | inl e ↦ let same : p x ≡ p y = ap p ((eq_iff x y).0 e) in ground (arith, length-filter p ys)
  | inr e ↦ let rest = length-filter_less p x ys (ground arith) h in ground (arith, rest)
]

pub any-mem :
    (p : String → Bool) (xs : List String)
    → any p xs ≡ true
    → (x : String) × (mem x xs ≡ true) × (p x ≡ true)
any-mem p [] h = absurd (cc)
any-mem p (x ∷ xs) h = elim (Bool-cases (p x)) [
  | inl e ↦ (x, mem_self x xs, e)
  | inr e ↦ let (y, m, q) = any-mem p xs (ground arith) in (y, ground arith, q)
]

pub mem-any :
    (p : String → Bool) (x : String) (xs : List String)
    → mem x xs ≡ true
    → p x ≡ true
    → any p xs ≡ true
mem-any p x [] m h = absurd (cc)
mem-any p x (y ∷ ys) m h = elim (Bool-cases (str_eq x y)) [
  | inl e ↦ let same : p x ≡ p y = ap p ((eq_iff x y).0 e) in ground arith
  | inr e ↦ let rest = mem-any p x ys (ground arith) h in ground (arith, rest)
]

-- The item of a list that comes lowest in a ranking.
pub minimum_lem :
    (rank : String → ℕ) (x : String) (xs : List String)
    → (m : String) × (mem m (x ∷ xs) ≡ true)
      × ((y : String) → mem y (x ∷ xs) ≡ true → rank m ≤ rank y)
minimum_lem rank x [] = (x, mem_self x [], at)
  where
    at : (y : String) → mem y (x ∷ []) ≡ true → rank x ≤ rank y
    at y m = let same : rank y ≡ rank x = ap rank ((eq_iff y x).0 (ground arith)) in omega arith
minimum_lem rank x (z ∷ xs) =
    let (m, within, low) = minimum_lem rank z xs in
    choose m within low (Bool-cases (leb (rank x) (rank m)))
  where
    choose :
        (m : String)
        → mem m (z ∷ xs) ≡ true
        → ((y : String) → mem y (z ∷ xs) ≡ true → rank m ≤ rank y)
        → (leb (rank x) (rank m) ≡ true) ⊎ (leb (rank x) (rank m) ≡ false)
        → (n : String) × (mem n (x ∷ z ∷ xs) ≡ true)
          × ((y : String) → mem y (x ∷ z ∷ xs) ≡ true → rank n ≤ rank y)
    choose m within low (inl h) = (x, mem_self x (z ∷ xs), at)
      where
        at : (y : String) → mem y (x ∷ z ∷ xs) ≡ true → rank x ≤ rank y
        at y k = elim (Bool-cases (str_eq y x)) [
          | inl e ↦ let same : rank y ≡ rank x = ap rank ((eq_iff y x).0 e) in omega arith
          | inr e ↦ let l = low y (ground arith) in ground (arith, l)
        ]
    choose m within low (inr h) = (m, ground arith, at)
      where
        at : (y : String) → mem y (x ∷ z ∷ xs) ≡ true → rank m ≤ rank y
        at y k = elim (Bool-cases (str_eq y x)) [
          | inl e ↦ let same : rank y ≡ rank x = ap rank ((eq_iff y x).0 e) in ground arith
          | inr e ↦ low y (ground arith)
        ]
