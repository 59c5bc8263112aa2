-- ===== src/ThreadPool/Wakeups.antt =====
-- No job of a pool of src/thread_pool/thread_pool.c is forgotten, and every worker can leave.
use uvg_torrent_c.Prelude.{
  inl, inr, ◌≢◌, ℕ, suc, ◌+◌, ◌≤◌, ◌≡◌, refl, ap, subst, List, ◌∷◌, ◌++◌, Option, none, some, arith,
}
use uvg_torrent_c.Queue
use uvg_torrent_c.Queue.{Queue, queue_new, queue_push, queue_pop, queue_get_count}
use uvg_torrent_c.Queue.Fifo
use uvg_torrent_c.Queue.Fifo.{elements, Holds, Reach-Holds, Reach-no_fault}
use uvg_torrent_c.ThreadPool.{
  Shared, Pc, testing, waiting, exited, moved, blocked, thread_handle, thread_pool_new, push_job,
}
use uvg_torrent_c.ThreadPool.Schedule.{
  Caller, adding, posting, closing, Pool, started, Reach, start, turn, begins, pushes,
  out_of_memory, posts, cancels, posts_exit,
}
use uvg_torrent_c.ThreadPool.Turns.{
  is_awake, is_waiting, total, total-append, total-waiting-le, to_post, Closes,
  thread_handle-TurnKeeps, turn-Goes, push-count, push_run, add_thread-total, total-turn,
  Closes-turn,
}

module _ {J : Type 0} where
  pub record Inv (added taken : List J) (p : Pool J) : Type 0 where
    pub history : Fifo.Reach added taken p.shared.job_queue p.shared.heap
    pub enough :
        p.shared.job_queue.count
        ≤ p.shared.job_semaphore + total is_awake p.threads + to_post p.caller
    pub closes : Closes p.caller p.shared p.threads

  Inv-turn :
      {added taken : List J} {p : Pool J} (l r : List (Pc J)) (old new : Pc J) (s : Shared J)
      → Inv added taken p
      → p.threads ≡ l ++ (old ∷ r)
      → thread_handle old p.shared ≡ moved new s
      → Inv added (taken ++ started old new) (record p { shared = s; threads = l ++ (new ∷ r) })
  Inv-turn {added} {taken} {p} l r old new s v e run =
      let (counts, flag, waits) = thread_handle-TurnKeeps old new p.shared s run in
      record {
        history = turn-Goes added taken p.shared v.history old new s run;
        enough = elim counts [
          | inl none_left ↦ omega arith
          | inr kept ↦ omega (arith, total-turn is_awake p.threads l r old new e, v.enough)
        ];
        closes = Closes-turn p.caller p.shared s p.threads l r old new e flag waits v.closes;
      }

  at_closing :
      (left : ℕ) (c : Caller J) (s : Shared J) (ts : List (Pc J))
      → c ≡ closing left
      → Closes c s ts
      → Closes (closing left) s ts
  at_closing left c s ts e h = subst (λ c. Closes c s ts) e h

  blocked_at_zero : (s : Shared J) → thread_handle waiting s ≡ blocked → s.job_semaphore ≡ 0
  unfolding thread_handle
  blocked_at_zero s e = ground arith

  -- Where the caller stands, and the queue and its history, after a push.
  Inv-pushed :
      {added added' taken : List J} {p : Pool J} (j : J) (place : Option ℕ) (status : Queue.Status)
      (s : Shared J)
      → Inv added taken p
      → p.caller ≡ adding j
      → push_job place j p.shared ≡ some (status, s)
      → Fifo.Reach added' taken s.job_queue s.heap
      → Inv added' taken (record p { shared = s; caller = posting })
  Inv-pushed j place status s v e run history =
      let (count, sem, flag) = push-count place j status _ s run in
      record { history = history; enough = omega (arith, v.enough, ap to_post e); closes = tt }

  pub Reach-Inv :
      {max_threads : ℕ} {added taken : List J} {p : Pool J}
      → Reach max_threads added taken p
      → Inv added taken p
  unfolding thread_pool_new queue_new
  Reach-Inv (start h) = record { history = Fifo.start h; enough = omega arith; closes = tt }
  Reach-Inv (turn l r old new s reach e run) = Inv-turn l r old new s (Reach-Inv reach) e run
  Reach-Inv (begins j created threads reach e run) =
      let v = Reach-Inv reach in
      record {
        history = v.history;
        enough = omega (arith, v.enough, ap to_post e, add_thread-total created _ _ threads run);
        closes = tt;
      }
  Reach-Inv (pushes j a s reach e free run) =
      let v = Reach-Inv reach in
      Inv-pushed j (some a) Queue.exit_success s v e run (
        Fifo.pushed a j s.job_queue s.heap v.history free
          (push_run (some a) j Queue.exit_success _ s run))
  Reach-Inv (out_of_memory j status s reach e run) =
      let v = Reach-Inv reach in
      Inv-pushed j none status s v e run
        (Fifo.out_of_memory j status s.job_queue s.heap v.history (push_run none j status _ s run))
  Reach-Inv (posts reach e) =
      let v = Reach-Inv reach in
      record { history = v.history; enough = omega (arith, v.enough, ap to_post e); closes = tt }
  Reach-Inv (cancels s reach e same) =
      let v = Reach-Inv reach in
      record {
        history = rw same v.history;
        enough = rw same (omega (arith, v.enough, ap to_post e));
        closes = rw same (refl, omega (arith, total-waiting-le _));
      }
  Reach-Inv (posts_exit {p} left reach e) =
      let v = Reach-Inv reach in
      let waits = at_closing (suc left) p.caller p.shared p.threads e v.closes in
      record {
        history = v.history;
        enough = omega (arith, v.enough, ap to_post e);
        closes = (waits.0, omega (arith, waits.1));
      }

  -- In every schedule of the workers and of the thread that adds jobs, the jobs that workers have
  -- taken, in order, and then those in the queue are the jobs that were added: none is lost, taken
  -- twice or out of turn. And there are at least as many wakeups under way as jobs in the queue:
  -- posts of the semaphore that no worker has consumed, workers that have been woken and have not
  -- looked for a job yet, and a post that `thread_pool_add_job` is about to make.
  pub no_job_forgotten :
      {max_threads : ℕ} {added taken : List J} {p : Pool J}
      → Reach max_threads added taken p
      → Holds added taken p.shared.job_queue p.shared.heap
        × (queue_get_count p.shared.job_queue
            ≤ p.shared.job_semaphore + total is_awake p.threads + to_post p.caller)
  unfolding queue_get_count
  no_job_forgotten reach = let v = Reach-Inv reach in (Reach-Holds v.history, v.enough)

  -- In every schedule, when `thread_pool_free` has made its posts, a worker that waits for the
  -- semaphore finds it above 0, so that no worker is blocked while the pool waits for it to end; and
  -- a worker that tests the flag leaves.
  pub every_worker_leaves :
      {max_threads : ℕ} {added taken : List J} {p : Pool J} (l r : List (Pc J)) (t : Pc J)
      → Reach max_threads added taken p
      → p.caller ≡ closing 0
      → p.threads ≡ l ++ (t ∷ r)
      → (t ≡ waiting → thread_handle t p.shared ≢ blocked)
        × (t ≡ testing → thread_handle t p.shared ≡ moved exited p.shared)
  unfolding thread_handle
  every_worker_leaves {p} l r t reach e here =
      let (flag, waits) = at_closing 0 p.caller p.shared p.threads e (Reach-Inv reach).closes in
      (
        (λ w b. omega (
          arith,
          blocked_at_zero p.shared (rw w at b),
          ap is_waiting w,
          ap (total is_waiting) here,
          total-append is_waiting l (t ∷ r),
          waits,
        )),
        λ w. rw w (rw flag),
      )
