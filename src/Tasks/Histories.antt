-- ===== src/Tasks/Histories.antt =====
-- Any sequence of runs of a task, of starts and pauses, and of changes of the shared state by others.
use virtual_usb.Base.{
  ℕ, ◌≡◌, refl, ap, ap₂, ◌∙◌, List, [], ◌∷◌, Bool, true, false, Option, some, none, drop,
}
use virtual_usb.Tasks.{waits, Task, Statement, task_wait, start, pause, resume, run}
use virtual_usb.Tasks.Resume.{proceed, left, IsTask, from_label, run-Runs}

pub data Event (S : Type 0) : Type 0 where
  is_run is_started is_paused : Event S
  changes : (S → S) → Event S

module _ {S : Type 0} where
  abbrev pub happen : List (Statement S) → Event S → Task × S → Task × S
  happen body is_run (t, s) = run body t s
  happen body is_started (t, s) = (start t, s)
  happen body is_paused (t, s) = (pause t, s)
  happen body (changes f) (t, s) = (t, f s)

  abbrev pub history : List (Statement S) → List (Event S) → Task × S → Task × S
  history body [] r = r
  history body (event ∷ events) r = history body events (happen body event r)

  -- The same for a coroutine: a start begins with the body again, a pause leaves nothing.
  abbrev pub expect :
      List (Statement S)
      → Event S
      → Option (List (Statement S)) × S
      → Option (List (Statement S)) × S
  expect body is_run (l, s) = proceed l s
  expect body is_started (l, s) = (some body, s)
  expect body is_paused (l, s) = (none, s)
  expect body (changes f) (l, s) = (l, f s)

  abbrev pub expected :
      List (Statement S)
      → List (Event S)
      → Option (List (Statement S)) × S
      → Option (List (Statement S)) × S
  expected body [] q = q
  expected body (event ∷ events) q = expected body events (expect body event q)

  abbrev pub seen : List (Statement S) → Task × S → Option (List (Statement S)) × S
  seen body r = (left body r.0, r.1)

  happen-expect :
      (body : List (Statement S)) (event : Event S) (t : Task) (s : S)
      → IsTask body t
      → IsTask body (happen body event (t, s)).0
        × (seen body (happen body event (t, s)) ≡ expect body event (seen body (t, s)))
  unfolding start pause
  happen-expect body is_run t s k =
      let r = (run-Runs body t s k).0 in (r.0, ap₂ (λ l u. (l, u)) r.1 r.2)
  happen-expect body is_started t s k = (tt, refl)
  happen-expect body is_paused t s k = (tt, refl)
  happen-expect body (changes f) t s k = (k, refl)

  -- In any sequence of runs, starts and pauses of a task that is at the beginning, at one of its
  -- labels or stopped, and of changes of the shared state by others, what the task has left to do
  -- and the shared state are those of a coroutine that keeps the list of the statements left: a run
  -- goes on up to the next yield or false condition, a start begins again and a pause leaves
  -- nothing.
  pub history-expected :
      (body : List (Statement S)) (events : List (Event S)) (t : Task) (s : S)
      → IsTask body t
      → seen body (history body events (t, s)) ≡ expected body events (seen body (t, s))
  history-expected body [] t s k = refl
  history-expected body (event ∷ events) t s k =
      let r = happen body event (t, s) in
      let h = happen-expect body event t s k in
      history-expected body events r.0 r.1 h.0 ∙ ap (expected body events) h.1

  -- When a task that waits for a condition is paused and resumed, the next run is the same as
  -- without the pause if the condition holds; if it does not, the task that was not paused keeps
  -- waiting and the other ends with its statements undone.
  pub resume-pause :
      (body : List (Statement S)) (t : Task) (s : S) (k : ℕ) (cond : S → Bool)
      (rest : List (Statement S))
      → t.state ≡ waits
      → t.jmp ≡ some k
      → drop k body ≡ task_wait cond ∷ rest
      → ((cond s ≡ true) → run body (resume (pause t)) s ≡ run body t s)
        × ((cond s ≡ false)
            → (seen body (run body t s) ≡ (some (task_wait cond ∷ rest), s))
              × (seen body (run body (resume (pause t)) s) ≡ (none, s)))
  unfolding run resume pause
  resume-pause body t s k cond rest st j e = (
    λ c. rw (st, j, e, c) refl,
    λ c. rw (st, j, e, c) (ap (λ p. (some (from_label p), s)) e, refl),
  )
