-- ===== src/Tasks/Rounds.antt =====
-- The loop of `Run`: when it waits for an interrupt, and that it gets there.
use virtual_usb.Base.{
  ℕ, zero, suc, ◌+◌, ◌≤◌, ◌<◌, arith, ◌≡◌, ◌⊎◌, refl, sym, ap, subst, ◌∙◌, List, [], ◌∷◌, Bool,
  true, false, ◌||◌, Option, some, none, drop, length, All, Bool-cases, inl, inr,
}
use virtual_usb.Tasks.{
  State, runs, waits, stops, Task, Statement, act, task_yield, task_wait, run, execute, go_to,
  finish, call_fn, after_run, round, repeat, settle, TaskList,
}
use virtual_usb.Tasks.Resume.{
  proceed, left, Fits, IsTask, HasLabel, Runs, run-Runs, drop_tail, no_both,
}

or_false : (a b : Bool) → (a || b) ≡ false → (a ≡ false) × (b ≡ false)
or_false false b e = (refl, e)
or_false true b e = cc

or_true : (a b : Bool) → (a || b) ≡ true → (a ≡ true) ⊎ (b ≡ true)
or_true false b e = inr e
or_true true b e = inl refl

module _ {S : Type 0} where
  abbrev pub IsGood : List (Statement S) × Task → Type 0
  IsGood (body, t) = IsTask body t

  -- A run of the task would change nothing.
  abbrev pub IsIdle : S → List (Statement S) × Task → Type 0
  IsIdle s (body, t) = proceed (left body t) s ≡ (left body t, s)

  -- What a round without work says.
  abbrev pub Calm : S → TaskList S × S × Bool → Type 0
  Calm s r = (r.2 ≡ false) → (r.1 ≡ s) × All (IsIdle s) r.0

  after_run-Calm :
      (body : List (Statement S)) (l : Option (List (Statement S))) (s : S) (r : Task × S)
      (others : S → TaskList S × S × Bool)
      → Runs l body s r
      → ((s : S) → All IsGood (others s).0 × Calm s (others s))
      → All IsGood (after_run body r others).0 × Calm s (after_run body r others)
  after_run-Calm body l s (t, u) others k f = (
    (k.0.0, (f u).0),
    λ e.
        let w = or_false t.did_work (others u).2 e in
        let p = k.1 w.0 in
        let same : u ≡ s = k.0.2 ∙ ap (λ q. q.1) p in
        let h = (f u).1 w.1 in
        (
          h.0 ∙ same,
          (
            subst (λ m. proceed m s ≡ (m, s)) (sym (k.0.1 ∙ ap (λ q. q.0) p)) p,
            subst (λ v. All (IsIdle v) (others u).0) same h.1,
          ),
        ),
  )

  round-Calm :
      (tasks : TaskList S) (s : S)
      → All IsGood tasks
      → All IsGood (round tasks s).0 × Calm s (round tasks s)
  unfolding round
  round-Calm [] s k = (tt, λ e. (refl, tt))
  round-Calm ((body, t) ∷ tasks) s k =
      after_run-Calm body (left body t) s (run body t s) (round tasks) (run-Runs body t s k.0)
        (λ u. round-Calm tasks u k.1)

  -- The statements that a task has not begun.
  abbrev pub ahead_in : State → Option ℕ → List (Statement S) → ℕ
  ahead_in stops j body = 0
  ahead_in runs j body = suc (length body)
  ahead_in waits none body = suc (length body)
  ahead_in waits (some k) body = length (drop k body)

  abbrev pub ahead : List (Statement S) × Task → ℕ
  ahead (body, t) = ahead_in t.state t.jmp body

  abbrev pub total : TaskList S → ℕ
  total [] = 0
  total (task ∷ tasks) = ahead task + total tasks

  execute-ahead :
      (body : List (Statement S)) (k : ℕ) (p : List (Statement S)) (j : Option ℕ) (s : S)
      → drop k body ≡ p
      → ahead (body, (finish (execute k p (record { state = runs; did_work = true; jmp = j }) s)).0)
        ≤ length p
  execute-ahead body k [] j s e = omega arith
  execute-ahead body k (act f ∷ rest) j s e =
      let h = execute-ahead body (suc k) rest j (f s) (drop_tail k body (act f) rest e) in
      omega arith
  execute-ahead body k (task_yield ∷ rest) j s e = rw e (omega arith)
  execute-ahead body k (task_wait cond ∷ rest) j s e = elim (Bool-cases (cond s)) [
    | inl c ↦ rw c (
        let h = execute-ahead body (suc k) rest j s (drop_tail k body (task_wait cond) rest e) in
        omega arith)
    | inr c ↦ rw (c, e) (omega arith)
  ]

  -- A run begins statements if it does work, and never goes back.
  abbrev pub Falls : List (Statement S) → ℕ → Task → Type 0
  Falls body n t = (ahead (body, t) ≤ n) × ((t.did_work ≡ true) → ahead (body, t) < n)

  lt-Falls :
      (body : List (Statement S)) (n m : ℕ) (t : Task)
      → ahead (body, t) ≤ m
      → m < n
      → Falls body n t
  lt-Falls body n m t h k = (omega arith, λ w. omega arith)

  go_to-Falls :
      (body : List (Statement S)) (k : ℕ) (p : List (Statement S)) (s : S)
      → HasLabel p
      → drop k body ≡ p
      → Falls body
          (length p)
          (finish (go_to k p (record { state = waits; did_work = false; jmp = some k }) s)).0
  go_to-Falls body k [] s h e = absurd h
  go_to-Falls body k (act f ∷ rest) s h e = absurd h
  go_to-Falls body k (task_yield ∷ rest) s h e =
      lt-Falls body (suc (length rest)) (length rest) _
        (execute-ahead body (suc k) rest (some k) s (drop_tail k body task_yield rest e))
        (omega arith)
  go_to-Falls body k (task_wait cond ∷ rest) s h e = elim (Bool-cases (cond s)) [
    | inl c ↦ rw c (
        lt-Falls body (suc (length rest)) (length rest) _
          (execute-ahead body (suc k) rest (some k) s (drop_tail k body (task_wait cond) rest e))
          (omega arith))
    | inr c ↦ rw (c, e) (omega arith, λ w. absurd (no_both w refl))
  ]

  call_fn-Falls :
      (st : State) (j : Option ℕ) (body : List (Statement S)) (s : S)
      → Fits st j body
      → Falls body
          (ahead_in st j body)
          (finish (call_fn st body (record { state = st; did_work = false; jmp = j }) s)).0
  call_fn-Falls stops j body s k = (omega arith, λ w. absurd (no_both w refl))
  call_fn-Falls runs none body s k =
      lt-Falls body (suc (length body)) (length body) _ (execute-ahead body 0 body none s refl)
        (omega arith)
  call_fn-Falls runs (some j) body s k = absurd k
  call_fn-Falls waits none body s k = absurd k
  call_fn-Falls waits (some j) body s k = go_to-Falls body j (drop j body) s k refl

  run-Falls :
      (body : List (Statement S)) (t : Task) (s : S)
      → IsTask body t
      → Falls body (ahead (body, t)) (run body t s).0
  unfolding run
  run-Falls body t s k = call_fn-Falls t.state t.jmp body s k

  abbrev pub Lower : ℕ → TaskList S × S × Bool → Type 0
  Lower n r = (total r.0 ≤ n) × ((r.2 ≡ true) → total r.0 < n)

  after_run-Lower :
      (body : List (Statement S)) (n m : ℕ) (r : Task × S) (others : S → TaskList S × S × Bool)
      → Falls body n r.0
      → ((s : S) → Lower m (others s))
      → Lower (n + m) (after_run body r others)
  after_run-Lower body n m (t, u) others h f =
      let a = h.0 in
      let b = (f u).0 in
      (
        omega arith,
        λ e. elim (or_true t.did_work (others u).2 e) [
          | inl w ↦ (let c = h.1 w in omega arith)
          | inr w ↦ (let c = (f u).1 w in omega arith)
        ],
      )

  round-Lower :
      (tasks : TaskList S) (s : S) → All IsGood tasks → Lower (total tasks) (round tasks s)
  unfolding round
  round-Lower [] s k = (omega arith, λ w. absurd (no_both w refl))
  round-Lower ((body, t) ∷ tasks) s k =
      after_run-Lower body (ahead (body, t)) (total tasks) (run body t s) (round tasks)
        (run-Falls body t s k.0) (λ u. round-Lower tasks u k.1)

  -- What `settle` answers.
  abbrev pub Settled : TaskList S × S × Bool → Type 0
  Settled r = (r.2 ≡ true) × All (IsIdle r.1) r.0

  repeat-Settled :
      (n fuel : ℕ) (s : S) (r : TaskList S × S × Bool)
      (loop : TaskList S → S → TaskList S × S × Bool)
      → n < suc fuel
      → All IsGood r.0
      → Calm s r
      → Lower n r
      → ((tasks : TaskList S) (u : S)
          → All IsGood tasks
          → total tasks < fuel
          → Settled (loop tasks u))
      → Settled (repeat r loop)
  repeat-Settled n fuel s (tasks, u, true) loop h g c l f =
      let d = l.1 refl in f tasks u g (omega arith)
  repeat-Settled n fuel s (tasks, u, false) loop h g c l f =
      let d = c refl in (refl, subst (λ v. All (IsIdle v) tasks) (sym d.0) d.1)

  -- For tasks that are each at the beginning, at a label or stopped, the inner loop of Run ends
  -- after at most as many rounds as there are statements ahead of the tasks, a task at its
  -- beginning counting one more, and one; then a run of any of the tasks would change neither the
  -- shared state nor what the task has left.
  pub settle-Settled :
      (fuel : ℕ) (tasks : TaskList S) (s : S)
      → All IsGood tasks
      → total tasks < fuel
      → Settled (settle fuel tasks s)
  unfolding settle
  settle-Settled zero tasks s k h = absurd (let e : suc (total tasks) ≤ 0 = h in omega arith)
  settle-Settled (suc fuel) tasks s k h =
      let r = round-Calm tasks s k in
      repeat-Settled (total tasks) fuel s (round tasks s) (settle fuel) h r.0 r.1
        (round-Lower tasks s k) (λ ts u g d. settle-Settled fuel ts u g d)
