-- ===== src/Effects.antt =====
-- Calls that change the state of the world and may raise, and rules for what they leave on a trace.
use synapse_os.Base.{Bool, true, false, if◌then◌else◌, Result, ok, err}
pub mod Trace
pub mod Triple

-- The world afterwards comes with the value or with the error: what a call has done stays.
abbrev pub Effect : Type 0 → Type 0 → Type 0 → Type 0
Effect W E A = W → Result E A × W

module _ {W E : Type 0} where
  infixl 5 ◌>>=◌ ◌>>◌
  abbrev pub ◌>>=◌ : {A B : Type 0} → Effect W E A → (A → Effect W E B) → Effect W E B
  ◌>>=◌ m f w = let (r, w') = m w in elim r [ ok a ↦ f a w' | err e ↦ (err e, w') ]

  abbrev pub ◌>>◌ : {A B : Type 0} → Effect W E A → Effect W E B → Effect W E B
  m >> k = m >>= λ _. k

  abbrev pub pure : {A : Type 0} → A → Effect W E A
  pure a w = (ok a, w)

  abbrev pub raise : {A : Type 0} → E → Effect W E A
  raise e w = (err e, w)

-- `try: m except error: handler(error)`
abbrev pub handle : {W E F A : Type 0} → Effect W E A → (E → Effect W F A) → Effect W F A
handle m handler w = let (r, w') = m w in elim r [ ok a ↦ (ok a, w') | err e ↦ handler e w' ]

-- A call that says whether it went through, with the error that stands for any failure.
abbrev pub attempt : {W E : Type 0} → (W → Bool × W) → E → Effect W E (Unit {0})
attempt m e w = let (b, w') = m w in (elim b [ true ↦ ok tt | false ↦ err e ], w')

-- A call that does not raise.
abbrev pub lift : {W E A : Type 0} → (W → A × W) → Effect W E A
lift m w = let (a, w') = m w in (ok a, w')

-- `if not test: raise error`
abbrev pub guard : {W E : Type 0} → Bool → E → Effect W E (Unit {0})
guard test e = if test then pure tt else raise e
