-- ===== src/Runtime/Triple.antt =====
-- Pre- and postconditions of the actions of a run, with a rule for each way to put actions together.
use synapse_os.Runtime.Types.{RuntimeErrorCode, RunState}
use synapse_os.Runtime.Machine.{
  runtime_error, timeout, cancelled, tool_audit_error, other, Exit, returned, continued, raised,
  Flow, value, exit, Run, Action, ◌>>=◌, catch_runtime_error, catch_tool_audit_error, update, pure,
  leave,
}

module _ {W : Type 0} where
  -- What holds where an action ends, by how it ends.
  abbrev pub Ends :
      {A : Type 0} → (A → Run W → Type 0) → (Exit → Run W → Type 0) → Flow A × Run W → Type 0
  Ends J E (value a, s) = J a s
  Ends J E (exit e, s) = E e s

  pub data Triple {A : Type 0} (I : Run W → Type 0) (m : Action W A) (J : A → Run W → Type 0)
      (E : Exit → Run W → Type 0) : Type 0 where
    triple : ((s : Run W) → I s → Ends J E (m s)) → Triple I m J E

  pub apply :
      {A : Type 0} {I : Run W → Type 0} {m : Action W A} {J : A → Run W → Type 0}
      {E : Exit → Run W → Type 0}
      → Triple I m J E
      → (s : Run W) → I s
      → Ends J E (m s)
  apply (triple t) = t

  bind-Ends :
      {A B : Type 0} {J : A → Run W → Type 0} {E : Exit → Run W → Type 0} {K : B → Run W → Type 0}
      (f : A → Action W B)
      → ((a : A) → Triple (J a) (f a) K E)
      → (r : Flow A) (s : Run W) → Ends J E (r, s)
      → Ends K E (elim r [ value a ↦ f a s | exit e ↦ (exit e, s) ])
  bind-Ends f tf (value a) s h = apply (tf a) s h
  bind-Ends f tf (exit e) s h = h

  pub bind_rule :
      {A B : Type 0} {I : Run W → Type 0} {J : A → Run W → Type 0} {K : B → Run W → Type 0}
      {E : Exit → Run W → Type 0} (m : Action W A) (f : A → Action W B)
      → Triple I m J E
      → ((a : A) → Triple (J a) (f a) K E)
      → Triple I (m >>= f) K E
  bind_rule m f tm tf = triple λ s h. bind-Ends f tf (m s).0 (m s).1 (apply tm s h)

  weaken-Ends :
      {A : Type 0} {J J' : A → Run W → Type 0} {E E' : Exit → Run W → Type 0}
      → ((a : A) (s : Run W) → J a s → J' a s)
      → ((e : Exit) (s : Run W) → E e s → E' e s)
      → (r : Flow A) (s : Run W) → Ends J E (r, s)
      → Ends J' E' (r, s)
  weaken-Ends j e (value a) s h = j a s h
  weaken-Ends j e (exit x) s h = e x s h

  pub weaken :
      {A : Type 0} {I I' : Run W → Type 0} {m : Action W A} {J J' : A → Run W → Type 0}
      {E E' : Exit → Run W → Type 0}
      → ((s : Run W) → I' s → I s)
      → ((a : A) (s : Run W) → J a s → J' a s)
      → ((e : Exit) (s : Run W) → E e s → E' e s)
      → Triple I m J E
      → Triple I' m J' E'
  weaken {m = m} i j e t = triple λ s h. weaken-Ends j e (m s).0 (m s).1 (apply t s (i s h))

  catch-Ends :
      {A : Type 0} {J : A → Run W → Type 0} {E E' : Exit → Run W → Type 0}
      (handler : RuntimeErrorCode → Action W A)
      → ((code : RuntimeErrorCode) → Triple (E (raised (runtime_error code))) (handler code) J E')
      → ((e : Exit) (s : Run W) → E e s → E' e s)
      → (r : Flow A) (s : Run W) → Ends J E (r, s)
      → Ends J E' (elim r [
        | value a ↦ (value a, s)
        | exit (raised (runtime_error code)) ↦ handler code s
        | exit e ↦ (exit e, s)
      ])
  catch-Ends handler th e (value a) s h = h
  catch-Ends handler th e (exit (returned st r)) s h = e (returned st r) s h
  catch-Ends handler th e (exit continued) s h = e continued s h
  catch-Ends handler th e (exit (raised (runtime_error code))) s h = apply (th code) s h
  catch-Ends handler th e (exit (raised timeout)) s h = e (raised timeout) s h
  catch-Ends handler th e (exit (raised cancelled)) s h = e (raised cancelled) s h
  catch-Ends handler th e (exit (raised tool_audit_error)) s h = e (raised tool_audit_error) s h
  catch-Ends handler th e (exit (raised other)) s h = e (raised other) s h

  pub catch_rule :
      {A : Type 0} {I : Run W → Type 0} {J : A → Run W → Type 0} {E E' : Exit → Run W → Type 0}
      (m : Action W A) (handler : RuntimeErrorCode → Action W A)
      → Triple I m J E
      → ((code : RuntimeErrorCode) → Triple (E (raised (runtime_error code))) (handler code) J E')
      → ((e : Exit) (s : Run W) → E e s → E' e s)
      → Triple I (catch_runtime_error m handler) J E'
  catch_rule m handler tm th e =
      triple λ s h. catch-Ends handler th e (m s).0 (m s).1 (apply tm s h)

  pub update_rule :
      {I J : Run W → Type 0} {E : Exit → Run W → Type 0} (f : RunState → RunState)
      → ((s : Run W) → I s → J (record s { state = f s.state }))
      → Triple I (update f) (λ _. J) E
  update_rule f h = triple h

  pub pure_rule :
      {A : Type 0} {I : Run W → Type 0} {K : A → Run W → Type 0} {E : Exit → Run W → Type 0} (a : A)
      → ((s : Run W) → I s → K a s)
      → Triple I (pure a) K E
  pure_rule a h = triple h

  pub leave_rule :
      {A : Type 0} {I : Run W → Type 0} {K : A → Run W → Type 0} {E : Exit → Run W → Type 0}
      (e : Exit)
      → ((s : Run W) → I s → E e s)
      → Triple I (leave {A = A} e) K E
  leave_rule e h = triple h

  catch_tool-Ends :
      {A : Type 0} {K : A → Run W → Type 0} {E : Exit → Run W → Type 0} (handler : Action W A)
      → Triple (E (raised tool_audit_error)) handler K E
      → (r : Flow A) (s : Run W) → Ends K E (r, s)
      → Ends K E (elim r [
        | value a ↦ (value a, s)
        | exit (raised tool_audit_error) ↦ handler s
        | exit e ↦ (exit e, s)
      ])
  catch_tool-Ends handler th (value a) s h = h
  catch_tool-Ends handler th (exit (returned st r)) s h = h
  catch_tool-Ends handler th (exit continued) s h = h
  catch_tool-Ends handler th (exit (raised (runtime_error code))) s h = h
  catch_tool-Ends handler th (exit (raised timeout)) s h = h
  catch_tool-Ends handler th (exit (raised cancelled)) s h = h
  catch_tool-Ends handler th (exit (raised tool_audit_error)) s h = apply th s h
  catch_tool-Ends handler th (exit (raised other)) s h = h

  pub catch_tool_rule :
      {A : Type 0} {I : Run W → Type 0} {K : A → Run W → Type 0} {E : Exit → Run W → Type 0}
      (m handler : Action W A)
      → Triple I m K E
      → Triple (E (raised tool_audit_error)) handler K E
      → Triple I (catch_tool_audit_error m handler) K E
  catch_tool_rule m handler tm th =
      triple λ s h. catch_tool-Ends handler th (m s).0 (m s).1 (apply tm s h)
