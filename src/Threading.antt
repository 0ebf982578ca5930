-- ===== src/Threading.antt =====
-- threading/thread_pool.{hpp,cpp}: submitters, workers and the shutdown as interleaved steps. A
-- step is what a thread does between two releases of the mutex, or one notification. Workers that
-- sleep in `cv_.wait` check its condition again, under the lock, when they wake up.
pub mod Order
pub mod Awake
pub mod Drain
pub mod Shutdown
pub mod Served
use ip_finder.Common.{
  ℕ, suc, ◌+◌, max, any, if◌then◌else◌, ◌≡◌, Bool, true, false, List, [], ◌∷◌, ◌++◌, map, replicate,
  Option, none, some,
}

pub data Worker (A : Type 0) : Type 0 where
  wants_lock : Worker A
  asleep : Worker A
  running : A → Worker A
  exited : Worker A

-- The members of the pool, with the notifications that are due: `notify_one` after a submission,
-- and `notify_all` after the flag of the shutdown is set.
pub record ThreadPool (A : Type 0) : Type 0 where
  pub tasks : List A
  pub workers : List (Worker A)
  pub stopping : Bool
  pub notify_one : ℕ
  pub notify_all : Bool

-- The pool, with the tasks that it has accepted, taken from the queue, and finished.
pub record World (A : Type 0) : Type 0 where
  pub pool : ThreadPool A
  pub accepted : List A
  pub started : List A
  pub finished : List A

-- The constructor, which starts one worker at least.
unfoldable pub thread_pool : {A : Type 0} → ℕ → ThreadPool A
thread_pool worker_count = record {
  tasks = [];
  workers = replicate (max 1 worker_count) wants_lock;
  stopping = false;
  notify_one = 0;
  notify_all = false;
}

unfoldable pub new_world : {A : Type 0} → ℕ → World A
unfolding thread_pool
new_world worker_count = record {
  pool = thread_pool worker_count;
  accepted = [];
  started = [];
  finished = [];
}

-- `none` where a submission throws.
unfoldable pub submit : {A : Type 0} → A → ThreadPool A → Option (ThreadPool A)
submit task pool =
    if pool.stopping
    then none
    else some (record pool { tasks = pool.tasks ++ (task ∷ []); notify_one = pool.notify_one + 1 })

-- What a worker does under the lock, and the queue that it leaves.
unfoldable pub worker_turn : {A : Type 0} → List A → Bool → Worker A × List A
worker_turn [] false = (asleep, [])
worker_turn [] true = (exited, [])
worker_turn (task ∷ tasks) stopping = (running task, tasks)

-- The first part of `shutdown`; a second call returns at once.
unfoldable pub shutdown : {A : Type 0} → ThreadPool A → ThreadPool A
shutdown pool = if pool.stopping then pool else record pool { stopping = true; notify_all = true }

abbrev pub leave_worker : {A : Type 0} → Worker A → Worker A
leave_worker worker = exited

-- The rest of `shutdown`, which joins every worker: they leave when the queue is empty.
unfoldable pub join_all : {A : Type 0} → ThreadPool A → ThreadPool A
join_all pool = record pool {
  tasks = [];
  workers = map leave_worker pool.workers;
  notify_one = 0;
  notify_all = false;
}

abbrev pub wake : {A : Type 0} → Worker A → Worker A
wake asleep = wants_lock
wake wants_lock = wants_lock
wake (running task) = running task
wake exited = exited

-- The task of a worker that is running one.
abbrev pub task_of : {A : Type 0} → Worker A → List A
task_of wants_lock = []
task_of asleep = []
task_of (running task) = task ∷ []
task_of exited = []

-- A worker has the lock: it takes a task, leaves, or goes to sleep.
unfoldable pub locked : {A : Type 0} → List (Worker A) → List (Worker A) → World A → World A
unfolding worker_turn
locked front back w =
    let (state, tasks) = worker_turn w.pool.tasks w.pool.stopping in
    record w {
      pool = record w.pool { tasks = tasks; workers = front ++ (state ∷ back) };
      started = w.started ++ task_of state;
    }

-- The pool when the worker between the two parts has a new state.
abbrev pub with_worker :
    {A : Type 0} → List (Worker A) → Worker A → List (Worker A) → ThreadPool A → ThreadPool A
with_worker front state back pool = record pool { workers = front ++ (state ∷ back) }

abbrev pub is_asleep : {A : Type 0} → Worker A → Bool
is_asleep wants_lock = false
is_asleep asleep = true
is_asleep (running task) = false
is_asleep exited = false

-- The steps of the workers, and the notifications that are due; `notify_one` wakes some sleeping
-- worker, or nobody where none sleeps.
pub data Work {A : Type 0} (w : World A) : World A → Type 0 where
  takes_lock :
      (front back : List (Worker A))
      → w.pool.workers ≡ front ++ (wants_lock ∷ back)
      → Work w (locked front back w)
  finishes :
      (front back : List (Worker A)) (task : A)
      → w.pool.workers ≡ front ++ (running task ∷ back)
      → Work w (record w {
        pool = with_worker front wants_lock back w.pool;
        finished = task ∷ w.finished;
      })
  wakes_one :
      (front back : List (Worker A)) (n : ℕ)
      → w.pool.workers ≡ front ++ (asleep ∷ back)
      → w.pool.notify_one ≡ suc n
      → Work w
          (record w { pool = record (with_worker front wants_lock back w.pool) { notify_one = n } })
  wakes_nobody :
      (n : ℕ)
      → any is_asleep w.pool.workers ≡ false
      → w.pool.notify_one ≡ suc n
      → Work w (record w { pool = record w.pool { notify_one = n } })
  wakes_all :
      w.pool.notify_all ≡ true
      → Work w (record w {
        pool = record w.pool { workers = map wake w.pool.workers; notify_all = false };
      })

-- Every step: also submissions, the shutdown, and wake-ups without a notification.
pub data Step {A : Type 0} (w : World A) : World A → Type 0 where
  works : {v : World A} → Work w v → Step w v
  submits :
      (task : A) (p : ThreadPool A)
      → submit task w.pool ≡ some p
      → Step w (record w { pool = p; accepted = w.accepted ++ (task ∷ []) })
  shuts_down : Step w (record w { pool = shutdown w.pool })
  wakes_alone :
      (front back : List (Worker A))
      → w.pool.workers ≡ front ++ (asleep ∷ back)
      → Step w (record w { pool = with_worker front wants_lock back w.pool })

pub data Reach {A : Type 0} (worker_count : ℕ) : World A → Type 0 where
  at_start : Reach worker_count (new_world worker_count)
  after : {w v : World A} → Reach worker_count w → Step w v → Reach worker_count v
