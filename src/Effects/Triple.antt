-- ===== src/Effects/Triple.antt =====
-- What a call that may raise makes of a world with a property.
use synapse_os.Base.{Bool, true, false, if◌then◌else◌, Result, ok, err, ◌≡◌, Bool-cases, inl, inr}
use synapse_os.Effects.{Effect, ◌>>=◌, handle, guard}

-- From a world with `Pre`, the call's value or error and the world afterwards have `Post`.
abbrev pub Triple :
    {W E A : Type 0} → (W → Type 0) → Effect W E A → (Result E A → W → Type 0) → Type 0
Triple {W} Pre m Post = (w : W) → Pre w → Post (m w).0 (m w).1

module _ {W E : Type 0} where
  pub Triple-bind :
      {A B : Type 0} (Pre : W → Type 0) (m : Effect W E A) (f : A → Effect W E B)
      (Mid : Result E A → W → Type 0) (Post : Result E B → W → Type 0)
      → Triple Pre m Mid
      → ((a : A) → Triple (Mid (ok a)) (f a) Post)
      → ((e : E) (w : W) → Mid (err e) w → Post (err e) w)
      → Triple Pre (m >>= f) Post
  Triple-bind {A} {B} Pre m f Mid Post h k stop w p = after (m w).0 (m w).1 (h w p)
    where
      after :
          (r : Result E A) (w' : W)
          → Mid r w'
          → let out : Result E B × W = elim r [ ok a ↦ f a w' | err e ↦ (err e, w') ] in
            Post out.0 out.1
      after (ok a) w' q = k a w' q
      after (err e) w' q = stop e w' q

  pub Triple-handle :
      {F A : Type 0} (Pre : W → Type 0) (m : Effect W E A) (handler : E → Effect W F A)
      (Mid : Result E A → W → Type 0) (Post : Result F A → W → Type 0)
      → Triple Pre m Mid
      → ((e : E) → Triple (Mid (err e)) (handler e) Post)
      → ((a : A) (w : W) → Mid (ok a) w → Post (ok a) w)
      → Triple Pre (handle m handler) Post
  Triple-handle {F} {A} Pre m handler Mid Post h k stop w p = after (m w).0 (m w).1 (h w p)
    where
      after :
          (r : Result E A) (w' : W)
          → Mid r w'
          → let out : Result F A × W = elim r [ ok a ↦ (ok a, w') | err e ↦ handler e w' ] in
            Post out.0 out.1
      after (ok a) w' q = stop a w' q
      after (err e) w' q = k e w' q

  pub Triple-guard :
      (Pre : W → Type 0) (test : Bool) (e : E) (Post : Result E (Unit {0}) → W → Type 0)
      → (test ≡ true → (w : W) → Pre w → Post (ok tt) w)
      → (test ≡ false → (w : W) → Pre w → Post (err e) w)
      → Triple Pre (guard test e) Post
  Triple-guard Pre test e Post yes_case no_case w p = elim (Bool-cases test) [
    | inl h ↦ rw (h, if◌then◌else◌) (yes_case h w p)
    | inr h ↦ rw (h, if◌then◌else◌) (no_case h w p)
  ]
