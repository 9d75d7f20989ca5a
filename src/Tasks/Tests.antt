-- ===== src/Tasks/Tests.antt =====
-- Two tasks on a number: one waits for it to be 2, the other steps to 2 with a yield between.
use virtual_usb.Base.{ℕ, suc, ◌+◌, ◌≡◌, arith, refl, List, [], ◌∷◌, true, false, some, none, ◌==◌}
use virtual_usb.Tasks.{
  waits, stops, Task, Statement, act, task_yield, task_wait, new_task, start, pause, resume, run,
  round, settle, TaskList,
}
use virtual_usb.Tasks.Histories.{
  Event, is_run, is_started, is_paused, changes, history, expected, seen, history-expected,
  resume-pause,
}
use virtual_usb.Tasks.Rounds.{Settled, settle-Settled}

abbrev waiter : List (Statement ℕ)
waiter = task_wait (λ n. n == 2) ∷ act (λ n. n + 10) ∷ task_wait (λ n. n == 0) ∷ []

abbrev stepper : List (Statement ℕ)
stepper = act suc ∷ task_yield ∷ act suc ∷ []

abbrev both : TaskList ℕ
both = (waiter, new_task) ∷ (stepper, new_task) ∷ []

abbrev events : List (Event ℕ)
events = is_run ∷ is_run ∷ changes (λ n. 2) ∷ is_run ∷ is_paused ∷ is_run ∷ is_started ∷ is_run ∷ []

history-expected_example :
    seen waiter (history waiter events (new_task, 0))
    ≡ expected waiter events (seen waiter (new_task, 0))
history-expected_example = history-expected waiter events new_task 0 tt

history_value : seen waiter (history waiter events (new_task, 0)) ≡ (some waiter, 12)
unfolding run start pause
history_value = refl

abbrev waiting : Task
waiting = record { state = waits; did_work = false; jmp = some 0 }

resume-pause_example :
    (((3 == 2) ≡ true) → run waiter (resume (pause waiting)) 3 ≡ run waiter waiting 3)
    × (((3 == 2) ≡ false)
        → (seen waiter (run waiter waiting 3) ≡ (some waiter, 3))
          × (seen waiter (run waiter (resume (pause waiting)) 3) ≡ (none, 3)))
resume-pause_example =
    resume-pause waiter waiting 3 0 (λ n. n == 2) (act (λ n. n + 10) ∷ task_wait (λ n. n == 0) ∷ [])
      refl refl refl

settle-Settled_example : Settled (settle 9 both 0)
settle-Settled_example = settle-Settled 9 both 0 (tt, (tt, tt)) (omega arith)

-- The stepper ends; the waiter waits for 0.
settled_value : settle 9 both 0 ≡ (
  (waiter, record { state = waits; did_work = false; jmp = some 2 })
      ∷ (stepper, record { state = stops; did_work = false; jmp = none })
      ∷ [],
  12,
  true,
)
unfolding settle round run
settled_value = refl

-- `resume` makes a stopped task begin, and one that waits for a false condition end.
resume_stops : (run waiter (resume waiting) 3).0.state ≡ stops
unfolding run resume
resume_stops = refl
