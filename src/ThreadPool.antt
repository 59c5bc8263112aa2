-- ===== src/ThreadPool.antt =====
-- src/thread_pool/thread_pool.c and job.c: workers that take jobs from a queue, a semaphore that wakes
-- them, and the one thread that adds jobs and frees the pool. A turn is what a thread does up to its
-- next access to what the threads share; `sem_wait` blocks while the semaphore is 0.
pub mod Schedule
pub mod Turns
pub mod Wakeups
mod Tests
use uvg_torrent_c.Prelude.{
  ℕ, zero, suc, ◌+◌, ◌-◌, Bool, true, false, List, [], ◌∷◌, ◌++◌, Option, none, some, ltb, ◌==◌,
  if◌then◌else◌, length, take,
}
use uvg_torrent_c.Queue
use uvg_torrent_c.Queue.Heap.{Nodes}
use uvg_torrent_c.Queue.{Queue, queue_new, queue_push, queue_pop, queue_get_count}

-- `struct Job`: `execute` gets the arguments of `args`.
pub record Job {ℓ} (A : Type ℓ) : Type ℓ where
  pub execute : List A → ℕ
  pub arg_count : ℕ
  pub args : List A

abbrev pub max_job_args : ℕ
max_job_args = 7

-- `none` is NULL: too many arguments, or no memory.
unfoldable pub job_new {ℓ} : {A : Type ℓ} → Bool → (List A → ℕ) → List A → Option (Job A)
job_new malloc_ok execute args =
    if ltb max_job_args (length args)
    then none
    else if malloc_ok
    then some (record { execute = execute; arg_count = length args; args = args })
    else none

-- The `switch`: the first `arg_count` arguments, and EXIT_FAILURE for more than there is a case for.
unfoldable pub job_execute {ℓ} : {A : Type ℓ} → Job A → ℕ
job_execute j = if ltb max_job_args j.arg_count then 1 else j.execute (take j.arg_count j.args)

-- What all threads see of a pool.
pub record Shared (J : Type 0) : Type 0 where
  pub cancel_flag : ℕ
  pub job_semaphore : ℕ
  pub job_queue : Queue
  pub heap : Nodes J

-- Where a worker stands in `thread_handle`.
pub data Pc (J : Type 0) : Type 0 where
  testing waiting woken popping exited : Pc J
  executing : J → Pc J

-- A turn of a thread. `stuck` is a fault of the queue.
pub data Turn (J : Type 0) : Type 0 where
  moved : Pc J → Shared J → Turn J
  blocked stuck : Turn J

module _ {J : Type 0} where
  unfoldable pub after_pop : Shared J → Option (Option J × Queue × Nodes J) → Turn J
  after_pop s none = stuck
  after_pop s (some (none, q, h)) = moved testing (record s { job_queue = q; heap = h })
  after_pop s (some (some j, q, h)) = moved (executing j) (record s { job_queue = q; heap = h })

  unfoldable pub thread_handle : Pc J → Shared J → Turn J
  thread_handle testing s = moved (if s.cancel_flag == 1 then exited else waiting) s
  thread_handle waiting s =
      if s.job_semaphore == 0
      then blocked
      else moved woken (record s { job_semaphore = s.job_semaphore - 1 })
  thread_handle woken s = moved (if ltb 0 (queue_get_count s.job_queue) then popping else testing) s
  thread_handle popping s = after_pop s (queue_pop s.job_queue s.heap)
  thread_handle (executing j) s = moved testing s
  thread_handle exited s = blocked

  unfoldable pub thread_pool_new : Nodes J → Shared J
  thread_pool_new heap = record {
    cancel_flag = 0;
    job_semaphore = 0;
    job_queue = queue_new;
    heap = heap;
  }

  -- `sem_post`
  abbrev pub sem_post : Shared J → Shared J
  sem_post s = record s { job_semaphore = s.job_semaphore + 1 }

  -- The first part of `thread_pool_add_job`: one more worker, as long as there are fewer than
  -- `max_threads`. `none` is a failure of `pthread_create`, by `created`.
  unfoldable pub add_thread : Bool → ℕ → List (Pc J) → Option (List (Pc J))
  add_thread created max_threads threads =
      if ltb (length threads) max_threads
      then (if created then some (threads ++ (testing ∷ [])) else none)
      else some threads

  -- The second part: the job goes to the queue. `none` is a fault.
  unfoldable pub push_job : Option ℕ → J → Shared J → Option (Queue.Status × Shared J)
  push_job node j s = elim (queue_push node j s.job_queue s.heap) [
    | none ↦ none
    | some (status, q, h) ↦ some (status, record s { job_queue = q; heap = h })
  ]
