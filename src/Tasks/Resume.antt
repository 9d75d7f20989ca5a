-- ===== src/Tasks/Resume.antt =====
-- A task against a coroutine that keeps the statements that are left, without labels or states.
use virtual_usb.Base.{
  ℕ, zero, suc, ◌≡◌, refl, sym, ap, subst, List, [], ◌∷◌, Bool, true, false, Option, some, none,
  if◌then◌else◌, drop, Bool-cases, inl, inr,
}
use virtual_usb.Tasks.{
  State, runs, waits, stops, Task, Statement, act, task_yield, task_wait, execute, go_to, run,
  finish, call_fn,
}

pub no_both : {b : Bool} → b ≡ true → b ≡ false → ⊥
no_both e e' = cc

module _ {S : Type 0} where
  -- The statements up to the next suspension, and what is left; `none` at the end.
  abbrev pub advance : List (Statement S) → S → Option (List (Statement S)) × S
  advance [] s = (none, s)
  advance (act f ∷ rest) s = advance rest (f s)
  advance (task_yield ∷ rest) s = (some rest, s)
  advance (task_wait cond ∷ rest) s =
      if cond s then advance rest s else (some (task_wait cond ∷ rest), s)

  abbrev pub proceed : Option (List (Statement S)) → S → Option (List (Statement S)) × S
  proceed none s = (none, s)
  proceed (some rest) s = advance rest s

  -- What is left of a task.
  abbrev pub from_label : List (Statement S) → List (Statement S)
  from_label (task_yield ∷ rest) = rest
  from_label (task_wait cond ∷ rest) = task_wait cond ∷ rest
  from_label (act f ∷ rest) = []
  from_label [] = []

  abbrev pub left_at : Option ℕ → List (Statement S) → List (Statement S)
  left_at none body = body
  left_at (some k) body = from_label (drop k body)

  abbrev pub left_in : State → Option ℕ → List (Statement S) → Option (List (Statement S))
  left_in stops j body = none
  left_in runs j body = some (left_at j body)
  left_in waits j body = some (left_at j body)

  abbrev pub left : List (Statement S) → Task → Option (List (Statement S))
  left body t = left_in t.state t.jmp body

  -- A task waits at a label, and has none when it starts.
  abbrev pub HasLabel : List (Statement S) → Type 0
  HasLabel (task_yield ∷ rest) = Unit
  HasLabel (task_wait cond ∷ rest) = Unit
  HasLabel (act f ∷ rest) = ⊥
  HasLabel [] = ⊥

  abbrev pub Fits : State → Option ℕ → List (Statement S) → Type 0
  Fits stops j body = Unit
  Fits runs none body = Unit
  Fits runs (some k) body = ⊥
  Fits waits none body = ⊥
  Fits waits (some k) body = HasLabel (drop k body)

  abbrev pub IsTask : List (Statement S) → Task → Type 0
  IsTask body t = Fits t.state t.jmp body

  pub drop_tail :
      (k : ℕ) (body : List (Statement S)) (x : Statement S) (rest : List (Statement S))
      → drop k body ≡ x ∷ rest
      → drop (suc k) body ≡ rest
  drop_tail zero [] x rest e = cc
  drop_tail zero (y ∷ ys) x rest e = cc
  drop_tail (suc k) [] x rest e = cc
  drop_tail (suc k) (y ∷ ys) x rest e = drop_tail k ys x rest e

  -- A result agrees with the coroutine's.
  abbrev pub Agrees : List (Statement S) → Task × S → Option (List (Statement S)) × S → Type 0
  Agrees body r q = IsTask body r.0 × (left body r.0 ≡ q.0) × (r.1 ≡ q.1)

  abbrev pub Worked : List (Statement S) → Task × S → Option (List (Statement S)) × S → Type 0
  Worked body r q = Agrees body r q × (r.0.did_work ≡ true)

  abbrev pub Suspends : List (Statement S) → ℕ → List (Statement S) → Option ℕ → S → Type 0
  Suspends body k p j s =
      Worked body (finish (execute k p (record { state = runs; did_work = true; jmp = j }) s))
        (advance p s)

  execute-Worked :
      (body : List (Statement S)) (k : ℕ) (p : List (Statement S)) (j : Option ℕ) (s : S)
      → drop k body ≡ p
      → Suspends body k p j s
  execute-Worked body k [] j s e = ((tt, refl, refl), refl)
  execute-Worked body k (act f ∷ rest) j s e =
      execute-Worked body (suc k) rest j (f s) (drop_tail k body (act f) rest e)
  execute-Worked body k (task_yield ∷ rest) j s e =
      ((subst HasLabel (sym e) tt, ap (λ p. some (from_label p)) e, refl), refl)
  execute-Worked body k (task_wait cond ∷ rest) j s e = elim (Bool-cases (cond s)) [
    | inl c ↦ rw c (execute-Worked body (suc k) rest j s (drop_tail k body (task_wait cond) rest e))
    | inr c ↦ rw c ((subst HasLabel (sym e) tt, ap (λ p. some (from_label p)) e, refl), refl)
  ]

  -- A run of a task that has `l` left agrees with the coroutine; without work nothing changes.
  abbrev pub Runs : Option (List (Statement S)) → List (Statement S) → S → Task × S → Type 0
  Runs l body s r = Agrees body r (proceed l s) × ((r.0.did_work ≡ false) → proceed l s ≡ (l, s))

  Worked-Runs :
      (l : Option (List (Statement S))) (body : List (Statement S)) (s : S) (r : Task × S)
      → Worked body r (proceed l s)
      → Runs l body s r
  Worked-Runs l body s r w = (w.0, λ e. absurd (no_both w.1 e))

  abbrev pub Goes : List (Statement S) → ℕ → List (Statement S) → S → Type 0
  Goes body k p s =
      Runs (some (from_label p)) body s
        (finish (go_to k p (record { state = waits; did_work = false; jmp = some k }) s))

  go_to-Goes :
      (body : List (Statement S)) (k : ℕ) (p : List (Statement S)) (s : S)
      → HasLabel p
      → drop k body ≡ p
      → Goes body k p s
  go_to-Goes body k [] s h e = absurd h
  go_to-Goes body k (act f ∷ rest) s h e = absurd h
  go_to-Goes body k (task_yield ∷ rest) s h e =
      Worked-Runs (some rest) body s _
        (execute-Worked body (suc k) rest (some k) s (drop_tail k body task_yield rest e))
  go_to-Goes body k (task_wait cond ∷ rest) s h e = elim (Bool-cases (cond s)) [
    | inl c ↦ rw c (
        let r =
          execute-Worked body (suc k) rest (some k) s (drop_tail k body (task_wait cond) rest e) in
        (r.0, λ w. absurd (no_both r.1 w)))
    | inr c ↦ rw c ((subst HasLabel (sym e) tt, ap (λ p. some (from_label p)) e, refl), λ w. refl)
  ]

  call_fn-Runs :
      (st : State) (j : Option ℕ) (body : List (Statement S)) (s : S)
      → Fits st j body
      → Runs
          (left_in st j body)
          body
          s
          (finish (call_fn st body (record { state = st; did_work = false; jmp = j }) s))
  call_fn-Runs stops j body s k = ((tt, refl, refl), λ e. refl)
  call_fn-Runs runs none body s k =
      Worked-Runs (some body) body s _ (execute-Worked body 0 body none s refl)
  call_fn-Runs runs (some j) body s k = absurd k
  call_fn-Runs waits none body s k = absurd k
  call_fn-Runs waits (some j) body s k = go_to-Goes body j (drop j body) s k refl

  pub run-Runs :
      (body : List (Statement S)) (t : Task) (s : S)
      → IsTask body t
      → Runs (left body t) body s (run body t s)
  unfolding run
  run-Runs body t s k = call_fn-Runs t.state t.jmp body s k
