-- ===== src/Effects/Trace.antt =====
-- Calls on a world with a trace, which only grows: what a call adds to it, and rules for the calls
-- that a call is made of.
use synapse_os.Base.{
  Bool, true, false, List, [], ◌∷◌, ◌++◌, append_assoc, append_nil, Result, ok, err, ◌≡◌, ◌∙◌, refl,
  sym, ap,
}
use synapse_os.Effects.{Effect, ◌>>=◌, ◌>>◌, pure, raise, handle, attempt, lift}

-- The call adds events to the trace that, with its result, have the property.
abbrev pub Emits :
    {V S E A : Type 0} → Effect (List V × S) E A → (Result E A → List V → Type 0) → Type 0
Emits {V} {S} m P =
    (before : List V) (s : S)
    → (added : List V) × ((m (before, s)).1.0 ≡ before ++ added) × P (m (before, s)).0 added

module _ {V S E : Type 0} where
  pub Emits-weaken :
      {A : Type 0} (m : Effect (List V × S) E A) (P Q : Result E A → List V → Type 0)
      → Emits m P
      → ((r : Result E A) (l : List V) → P r l → Q r l)
      → Emits m Q
  Emits-weaken m P Q h f before s = let (l, e, p) = h before s in (l, e, f (m (before, s)).0 l p)

  pub Emits-pure :
      {A : Type 0} (a : A) (P : Result E A → List V → Type 0)
      → P (ok a) []
      → Emits {V = V} {S = S} {E = E} (pure a) P
  Emits-pure a P p before s = ([], sym (append_nil before), p)

  pub Emits-raise :
      {A : Type 0} (e : E) (P : Result E A → List V → Type 0)
      → P (err e) []
      → Emits {V = V} {S = S} {E = E} {A = A} (raise e) P
  Emits-raise e P p before s = ([], sym (append_nil before), p)

  -- After the first call, its value's continuation adds its own events, or its error stays.
  pub Emits-bind :
      {A B : Type 0} (m : Effect (List V × S) E A) (f : A → Effect (List V × S) E B)
      (P : Result E A → List V → Type 0) (R : Result E B → List V → Type 0)
      → Emits m P
      → ((a : A) (l : List V) → P (ok a) l → Emits (f a) (λ r k. R r (l ++ k)))
      → ((e : E) (l : List V) → P (err e) l → R (err e) l)
      → Emits (m >>= f) R
  Emits-bind {A} {B} m f P R h k stop before s =
      let (l, grown, p) = h before s in after (m (before, s)).0 (m (before, s)).1 l grown p
    where
      after :
          (r : Result E A) (w : List V × S) (l : List V)
          → w.0 ≡ before ++ l
          → P r l
          → let out : Result E B × (List V × S) = elim r [ ok a ↦ f a w | err e ↦ (err e, w) ] in
            (added : List V) × (out.1.0 ≡ before ++ added) × R out.0 added
      after (err e) w l grown p = (l, grown, stop e l p)
      after (ok a) w l grown p =
          let (j, more, q) = k a l p w.0 w.1 in
          (l ++ j, more ∙ ap (λ x. x ++ j) grown ∙ append_assoc before l j, q)

  pub Emits-handle :
      {F A : Type 0} (m : Effect (List V × S) E A) (handler : E → Effect (List V × S) F A)
      (P : Result E A → List V → Type 0) (R : Result F A → List V → Type 0)
      → Emits m P
      → ((e : E) (l : List V) → P (err e) l → Emits (handler e) (λ r k. R r (l ++ k)))
      → ((a : A) (l : List V) → P (ok a) l → R (ok a) l)
      → Emits (handle m handler) R
  Emits-handle {F} {A} m handler P R h k stop before s =
      let (l, grown, p) = h before s in after (m (before, s)).0 (m (before, s)).1 l grown p
    where
      after :
          (r : Result E A) (w : List V × S) (l : List V)
          → w.0 ≡ before ++ l
          → P r l
          → let out : Result F A × (List V × S) = elim r [
            | ok a ↦ (ok a, w)
            | err e ↦ handler e w
          ] in
            (added : List V) × (out.1.0 ≡ before ++ added) × R out.0 added
      after (ok a) w l grown p = (l, grown, stop a l p)
      after (err e) w l grown p =
          let (j, more, q) = k e l p w.0 w.1 in
          (l ++ j, more ∙ ap (λ x. x ++ j) grown ∙ append_assoc before l j, q)

-- A call on the world, with an event on the trace that tells of its value.
abbrev pub traced : {V S A : Type 0} → (A → V) → (S → A × S) → List V × S → A × (List V × S)
traced event call w = let (a, s) = call w.1 in (a, (w.0 ++ event a ∷ [], s))

-- One event, of a value that the call has given in some state.
pub data Once {V S E A : Type 0} (event : A → V) (call : S → A × S)
    : Result E A → List V → Type 0 where
  once : (a : A) (s s' : S) → call s ≡ (a, s') → Once event call (ok a) (event a ∷ [])

pub Emits-traced :
    {V S E A : Type 0} (event : A → V) (call : S → A × S)
    → Emits {V = V} {S = S} {E = E} (lift (traced event call)) (Once event call)
Emits-traced event call before s =
    let a = (call s).0 in (event a ∷ [], refl, Once.once a s (call s).1 refl)

-- One event that tells whether the call went through.
pub data Tried {V E : Type 0} (event : Bool → V) (e : E)
    : Result E (Unit {0}) → List V → Type 0 where
  through : Tried event e (ok tt) (event true ∷ [])
  refused : Tried event e (err e) (event false ∷ [])

pub Emits-attempt :
    {V S E : Type 0} (event : Bool → V) (call : S → Bool × S) (e : E)
    → Emits {V = V} {S = S} (attempt (traced event call) e) (Tried event e)
Emits-attempt {V} {S} {E} event call e before s = (event (call s).0 ∷ [], refl, tell (call s).0)
  where
    tell : (b : Bool) → Tried event e (elim b [ true ↦ ok tt | false ↦ err e ]) (event b ∷ [])
    tell true = Tried.through
    tell false = Tried.refused

module _ {V S E : Type 0} where
  abbrev Given : {A : Type 0} → (A → V) → (S → A × S) → Result E A → List V → Type 0
  Given event call r l = Once event call r l

  -- A call that gives one event, and then the rest.
  pub Emits-once :
      {A B : Type 0} (event : A → V) (call : S → A × S) (f : A → Effect (List V × S) E B)
      (R : Result E B → List V → Type 0)
      → ((a : A) (s s' : S) → call s ≡ (a, s') → Emits (f a) (λ r l. R r (event a ∷ l)))
      → Emits (lift (traced event call) >>= f) R
  Emits-once {A} {B} event call f R h =
      Emits-bind (lift (traced event call)) f (Once event call) R (Emits-traced event call) next
        (λ e l o. stop e l o)
    where
      next : (a : A) (l : List V) → Given event call (ok a) l → Emits (f a) (λ r k. R r (l ++ k))
      next a l (Once.once _ s s' e) = h a s s' e

      stop : (e : E) (l : List V) → Given event call (err e) l → R (err e) l
      stop e l o = elim o [ ]

  -- A call that may be refused, and then the rest.
  pub Emits-tried :
      {B : Type 0} (event : Bool → V) (e : E) (m : Effect (List V × S) E (Unit {0}))
      (k : Effect (List V × S) E B) (R : Result E B → List V → Type 0)
      → Emits m (Tried event e)
      → Emits k (λ r l. R r (event true ∷ l))
      → R (err e) (event false ∷ [])
      → Emits (m >> k) R
  Emits-tried {B} event e m k R h yes_case no_case =
      Emits-bind m (λ _. k) (Tried event e) R h next stop
    where
      next : (a : Unit {0}) (l : List V) → Tried event e (ok a) l → Emits k (λ r j. R r (l ++ j))
      next a l Tried.through = yes_case

      stop : (x : E) (l : List V) → Tried event e (err x) l → R (err x) l
      stop x l Tried.refused = no_case

  -- The same where the refusal is handled.
  pub Emits-tried-handle :
      {F : Type 0} (event : Bool → V) (e : E) (m : Effect (List V × S) E (Unit {0}))
      (handler : E → Effect (List V × S) F (Unit {0})) (R : Result F (Unit {0}) → List V → Type 0)
      → Emits m (Tried event e)
      → Emits (handler e) (λ r l. R r (event false ∷ l))
      → R (ok tt) (event true ∷ [])
      → Emits (handle m handler) R
  Emits-tried-handle {F} event e m handler R h no_case yes_case =
      Emits-handle m handler (Tried event e) R h next stop
    where
      next :
          (x : E) (l : List V) → Tried event e (err x) l → Emits (handler x) (λ r j. R r (l ++ j))
      next x l Tried.refused = no_case

      stop : (a : Unit {0}) (l : List V) → Tried event e (ok a) l → R (ok a) l
      stop a l Tried.through = yes_case
