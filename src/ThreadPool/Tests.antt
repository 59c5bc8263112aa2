-- ===== src/ThreadPool/Tests.antt =====
-- Schedules of a pool of src/thread_pool/thread_pool.c with one worker, and a job.
use uvg_torrent_c.Prelude.{ℕ, ◌+◌, ◌≤◌, ◌≡◌, ◌≢◌, refl, true, [], ◌∷◌, none, some}
use uvg_torrent_c.Queue.Heap.{Nodes, store}
use uvg_torrent_c.Queue.{queue_new, queue_push, queue_get_count}
use uvg_torrent_c.Queue.Fifo.{Holds}
use uvg_torrent_c.ThreadPool.{
  Shared, Pc, testing, waiting, exited, moved, blocked, thread_handle, thread_pool_new, add_thread,
  push_job, job_new,
}
use uvg_torrent_c.ThreadPool.Schedule.{
  idle, adding, closing, Pool, started, Reach, start, turn, begins, pushes, posts, cancels,
  posts_exit,
}
use uvg_torrent_c.ThreadPool.Turns.{is_awake, total, to_post}
use uvg_torrent_c.ThreadPool.Wakeups.{no_job_forgotten, every_worker_leaves}

abbrev no_nodes : Nodes ℕ
no_nodes a = none

-- One job added, and the worker not yet awake.
abbrev with_job : Shared ℕ
with_job = record {
  cancel_flag = 0;
  job_semaphore = 0;
  job_queue = record { count = 1; head = some 5; tail = some 5 };
  heap = store no_nodes 5 (record { value = 8; next = none });
}

abbrev one_worker : Pool ℕ
one_worker = record {
  shared = thread_pool_new no_nodes;
  max_threads = 1;
  threads = testing ∷ [];
  caller = adding 8;
}

begun : Reach 1 [] [] one_worker
unfolding add_thread
begun = begins 8 true (testing ∷ []) (start no_nodes) refl refl

abbrev busy : Pool ℕ
busy = record {
  shared = record with_job { job_semaphore = 1 };
  max_threads = 1;
  threads = testing ∷ [];
  caller = idle;
}

busy-Reach : Reach 1 (8 ∷ []) [] busy
unfolding push_job queue_push queue_new thread_pool_new
busy-Reach = posts (pushes 8 5 with_job begun refl refl refl) refl

no_job_forgotten_example :
    Holds (8 ∷ []) [] busy.shared.job_queue busy.shared.heap
    × (queue_get_count busy.shared.job_queue
        ≤ busy.shared.job_semaphore + total is_awake busy.threads + to_post busy.caller)
no_job_forgotten_example = no_job_forgotten busy-Reach

-- The worker waits, and the pool is freed.
abbrev closed : Pool ℕ
closed = record {
  shared = record with_job { job_semaphore = 2; cancel_flag = 1 };
  max_threads = 1;
  threads = waiting ∷ [];
  caller = closing 0;
}

closed-Reach : Reach 1 (8 ∷ []) [] closed
unfolding thread_handle started
closed-Reach =
    posts_exit 0
      (cancels (record (busy.shared) { cancel_flag = 1 })
        (turn [] [] testing waiting busy.shared busy-Reach refl refl) refl refl)
      refl

every_worker_leaves_example :
    (◌≡◌ {A = Pc ℕ} waiting waiting → thread_handle waiting closed.shared ≢ blocked)
    × (◌≡◌ {A = Pc ℕ} waiting testing
        → thread_handle waiting closed.shared ≡ moved exited closed.shared)
every_worker_leaves_example = every_worker_leaves [] [] waiting closed-Reach refl refl

-- A job with more arguments than there is a case for is refused.
refused : job_new {A = ℕ} true (λ l. 0) (1 ∷ 2 ∷ 3 ∷ 4 ∷ 5 ∷ 6 ∷ 7 ∷ 8 ∷ []) ≡ none
unfolding job_new
refused = refl
