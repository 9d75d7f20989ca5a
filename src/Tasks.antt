-- ===== src/Tasks.antt =====
-- LIB/Toastbox/Task.h and Task.cpp: tasks that suspend themselves at a label and go on there. The
-- function of a task is the client's: here a list of statements, the macros `TaskYield` and `TaskWait`
-- and what stands between them, which acts on a state that the tasks share. A label is the place of
-- its macro in the list. `TaskBegin` opens the function.
pub mod Resume
pub mod Histories
pub mod Rounds
mod Tests
use virtual_usb.Base.{
  ℕ, zero, suc, List, [], ◌∷◌, Bool, true, false, ◌||◌, Option, some, none, if◌then◌else◌, drop,
}

-- `Task::State`
pub data State : Type 0 where
  runs waits stops : State

-- `Task`, less its function, the unused sleep and the global pointer to the task that runs.
pub record Task : Type 0 where
  pub state : State
  pub did_work : Bool
  pub jmp : Option ℕ

pub data Statement (S : Type 0) : Type 0 where
  act : (S → S) → Statement S
  task_yield : Statement S
  task_wait : (S → Bool) → Statement S

-- `Task(fn)`
abbrev pub new_task : Task
new_task = record { state = runs; did_work = false; jmp = none }

-- `start`
unfoldable pub start : Task → Task
start t = record t { state = runs; jmp = none }

-- `pause`
unfoldable pub pause : Task → Task
pause t = record t { state = stops }

-- `resume`
unfoldable pub resume : Task → Task
resume t = record t { state = runs }

-- `_setWaiting`
abbrev pub set_waiting : Task → Task
set_waiting t = record t { state = waits }

-- `_setRunning`
abbrev pub set_running : Task → Task
set_running t = record t { state = runs; did_work = true }

-- The first half of `_TaskYield`: the label is kept and the function returns.
abbrev pub yield_at : ℕ → Task → Task
yield_at k t = record t { jmp = some k }

-- The end of `run`: a task that returns in the state Run has ended.
abbrev pub finished : State → Task → Task
finished runs t = record t { state = stops; jmp = none }
finished waits t = t
finished stops t = t

-- The array that `Run` is given; each task with its function.
abbrev pub TaskList : Type 0 → Type 0
TaskList S = List (List (Statement S) × Task)

module _ {S : Type 0} where
  -- The statements from place `k` on.
  abbrev pub execute : ℕ → List (Statement S) → Task → S → Task × S
  execute k [] t s = (t, s)
  execute k (act f ∷ rest) t s = execute (suc k) rest t (f s)
  execute k (task_yield ∷ rest) t s = (yield_at k (set_waiting t), s)
  execute k (task_wait cond ∷ rest) t s =
      if cond s
      then execute (suc k) rest (set_running (set_waiting t)) s
      else (yield_at k (set_waiting t), s)

  -- The statements from label `k` on. A wait looks at its condition again.
  abbrev pub go_to : ℕ → List (Statement S) → Task → S → Task × S
  go_to k (task_yield ∷ rest) t s = execute (suc k) rest (set_running t) s
  go_to k (task_wait cond ∷ rest) t s =
      if cond s then execute (suc k) rest (set_running t) s else (yield_at k t, s)
  go_to k (act f ∷ rest) t s = (t, s)
  go_to k [] t s = (t, s)

  -- `TaskBegin`
  abbrev pub task_begin : Option ℕ → List (Statement S) → Task → S → Task × S
  task_begin none body t s = execute 0 body (set_running t) s
  task_begin (some k) body t s = go_to k (drop k body) t s

  abbrev pub call_fn : State → List (Statement S) → Task → S → Task × S
  call_fn runs body t s = task_begin t.jmp body t s
  call_fn waits body t s = task_begin t.jmp body t s
  call_fn stops body t s = (t, s)

  abbrev pub finish : Task × S → Task × S
  finish (t, s) = (finished t.state t, s)

  -- `run`; what it returns is the field `did_work` of the task.
  unfoldable pub run : List (Statement S) → Task → S → Task × S
  run body t s = finish (call_fn t.state body (record t { did_work = false }) s)

  -- The inner loop of `Run`: every task is run, and the answer is whether one did work.
  abbrev pub after_run :
      List (Statement S) → Task × S → (S → TaskList S × S × Bool) → TaskList S × S × Bool
  after_run body (t, s) others = let r = others s in ((body, t) ∷ r.0, r.1, t.did_work || r.2)

  unfoldable pub round : TaskList S → S → TaskList S × S × Bool
  round [] s = ([], s, false)
  round ((body, t) ∷ tasks) s = after_run body (run body t s) (round tasks)

  abbrev pub repeat :
      TaskList S × S × Bool → (TaskList S → S → TaskList S × S × Bool) → TaskList S × S × Bool
  repeat (tasks, s, true) loop = loop tasks s
  repeat (tasks, s, false) loop = (tasks, s, true)

  -- The loop of `Run` up to the wait for an interrupt; the answer is whether it got there.
  unfoldable pub settle : ℕ → TaskList S → S → TaskList S × S × Bool
  settle zero tasks s = (tasks, s, false)
  settle (suc fuel) tasks s = repeat (round tasks s) (settle fuel)
