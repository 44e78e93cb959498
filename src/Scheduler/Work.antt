-- ===== src/Scheduler/Work.antt =====
-- scheduler/scheduler.go: the settings, Submit, and what one worker does with one task.
use amp_sentinel.Prelude.{
  ℕ, zero, suc, ◌+◌, ◌*◌, Bool, true, false, ◌&&◌, ◌++◌, List, [], ◌∷◌, ltb, if◌then◌else◌,
}
use amp_sentinel.Prelude.Int.{ℤ, pos, negsuc}
use amp_sentinel.Prelude.Text.{Text, utf8}
use amp_sentinel.Intake.Event.{RawEvent, severity_priority}
use amp_sentinel.Scheduler.Task.{Task, TaskStatus, pending, running, completed, failed}
pub mod Settled
pub mod Calls

-- Go's Config, with durations in nanoseconds.
pub record Config : Type 0 where
  pub max_concurrency : ℤ
  pub queue_size : ℤ
  pub default_timeout : ℤ
  pub retry_count : ℤ
  pub retry_delay : ℤ

-- The configuration that New keeps: no field is negative.
pub record Settings : Type 0 where
  pub max_concurrency : ℕ
  pub queue_size : ℕ
  pub default_timeout : ℕ
  pub retry_count : ℕ
  pub retry_delay : ℕ

abbrev pub positive_or : ℤ → ℕ → ℕ
positive_or (pos zero) d = d
positive_or (pos (suc n)) d = suc n
positive_or (negsuc n) d = d

abbrev pub natural_or : ℤ → ℕ → ℕ
natural_or (pos n) d = n
natural_or (negsuc n) d = d

abbrev pub second : ℕ
second = 1000000000

-- New
unfoldable pub settings_of : Config → Settings
settings_of cfg = record {
  max_concurrency = positive_or cfg.max_concurrency 3;
  queue_size = positive_or cfg.queue_size 100;
  default_timeout = positive_or cfg.default_timeout (900 * second);
  retry_count = natural_or cfg.retry_count 2;
  retry_delay = positive_or cfg.retry_delay (10 * second);
}

-- The task that Submit makes, with an id from the first eight characters of a fresh uuid.
unfoldable pub task_of : Settings → Text → ℕ → RawEvent → Task
task_of s uuid now event = record {
  id = utf8 "task-" ++ uuid;
  event = event;
  priority = severity_priority event.severity;
  status = pending;
  retry_count = 0;
  max_retries = s.retry_count;
  created_at = now;
  started_at = 0;
  finished_at = 0;
  error = [];
}

-- How a call of the diagnosis function ends.
pub data Outcome : Type 0 where
  succeeds : Outcome
  errs : Text → Outcome
  panics : Text → Outcome

-- What the world does around one attempt: whether the context is cancelled while the worker waits for the retry,
-- the clock when the attempt begins and when it ends, the call's outcome, and whether the context is cancelled then.
pub record Attempt : Type 0 where
  pub cancelled_before : Bool
  pub begins_at : ℕ
  pub outcome : Outcome
  pub cancelled_after : Bool
  pub ends_at : ℕ

pub record Stats : Type 0 where
  pub in_work : ℕ
  pub done : ℕ
  pub gone_wrong : ℕ

-- processTask returns, or unwinds with a panic; `calls` are the attempts in which it called the diagnosis function.
pub record Processed : Type 0 where
  pub task : Task
  pub stats : Stats
  pub calls : List ℕ
  pub panic : List Text

unfoldable pub complete : Task → ℕ → Stats → Processed
complete t now c = record {
  task = record t { status = completed; finished_at = now };
  stats = record c { done = c.done + 1 };
  calls = [];
  panic = [];
}

unfoldable pub fail : Task → ℕ → Stats → Processed
fail t now c = record {
  task = record t { status = failed; finished_at = now };
  stats = record c { gone_wrong = c.gone_wrong + 1 };
  calls = [];
  panic = [];
}

unfoldable pub start : Task → ℕ → Task
start t now = record t { status = running; started_at = now }

unfoldable pub called : ℕ → Processed → Processed
called n r = record r { calls = n ∷ r.calls }

-- The task after attempt `n` has failed with an error.
unfoldable pub record_error : Task → ℕ → Text → Task
record_error t n e = record t { error = e; retry_count = n + 1 }

-- The body of the loop once the diagnosis function has returned; `rest` is what the loop does after it.
unfoldable pub settle : Outcome → Attempt → ℕ → Task → Stats → (Task → Processed) → Processed
settle succeeds a n t c rest = called n (complete t a.ends_at c)
settle (errs e) a n t c rest =
    let failed_once = record_error t n e in
    called n (if a.cancelled_after then fail failed_once a.ends_at c else rest failed_once)
settle (panics e) a n t c rest = record { task = t; stats = c; calls = n ∷ []; panic = e ∷ [] }

-- The loop of processTask with `k` attempts left, from attempt `n`; `last` is the clock once all have failed.
unfoldable pub attempts : (ℕ → Attempt) → ℕ → ℕ → ℕ → Task → Stats → Processed
attempts world last zero n t c = fail t last c
attempts world last (suc k) n t c =
    let a = world n in
    let rest : Task → Processed = λ u. attempts world last k (n + 1) u c in
    if ltb 0 n && a.cancelled_before
    then fail (record t { error = utf8 "scheduler shutting down" }) a.begins_at c
    else settle a.outcome a n (start t a.begins_at) c rest

-- `attempt <= MaxRetries`, from 0.
unfoldable pub process_task : (ℕ → Attempt) → ℕ → Task → Stats → Processed
process_task world last t c = attempts world last (t.max_retries + 1) 0 t c

unfoldable pub recover : Processed → ℕ → List Text → Processed
recover r now [] = r
recover r now (e ∷ _) = record r {
  task = record r.task { status = failed; error = utf8 "panic: " ++ e; finished_at = now };
  stats = record r.stats { gone_wrong = r.stats.gone_wrong + 1 };
}

-- safeProcessTask
unfoldable pub safe_process_task : (ℕ → Attempt) → ℕ → Task → Stats → Processed
safe_process_task world last t c = let r = process_task world last t c in recover r last r.panic
