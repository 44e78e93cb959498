-- ===== src/Scheduler/Task.antt =====
-- scheduler/task.go: a task, its status, and the order in which tasks are served.
use amp_sentinel.Prelude.{ℕ, Bool, not, ltb, ◌==◌, if◌then◌else◌}
use amp_sentinel.Prelude.Text.{Text}
use amp_sentinel.Intake.Event.{RawEvent}

pub data TaskStatus : Type 0 where
  pending running completed failed timeout : TaskStatus

-- The heap position of a task stands beside it, in Scheduler.Heap.Slot.
pub record Task : Type 0 where
  pub id : Text
  pub event : RawEvent
  pub priority : ℕ
  pub status : TaskStatus
  pub retry_count : ℕ
  pub max_retries : ℕ
  pub created_at : ℕ
  pub started_at : ℕ
  pub finished_at : ℕ
  pub error : Text

-- taskHeap.Less on the two tasks: a higher priority first, then the earlier creation.
unfoldable pub less : Task → Task → Bool
less s t =
    if not (s.priority == t.priority)
    then ltb t.priority s.priority
    else ltb s.created_at t.created_at
