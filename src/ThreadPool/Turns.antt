-- ===== src/ThreadPool/Turns.antt =====
-- What a turn of a worker of src/thread_pool/thread_pool.c, and a push, do to the counts of the pool
-- and to the history of its queue.
use uvg_torrent_c.Prelude.{
  ◌⊎◌, ℕ, ◌+◌, ◌≤◌, ◌≡◌, refl, ap, ◌∙◌, Bool, List, [], ◌∷◌, ◌++◌, Option, none, some, append-nil,
  arith, length,
}
use uvg_torrent_c.Queue.Heap.{Nodes}
use uvg_torrent_c.Queue
use uvg_torrent_c.Queue.{Queue, queue_new, queue_push, queue_pop, queue_get_count}
use uvg_torrent_c.Queue.Fifo
use uvg_torrent_c.Queue.Fifo.{elements, Holds, Reach-Holds, Reach-no_fault}
use uvg_torrent_c.ThreadPool.{
  Shared, Pc, testing, waiting, woken, popping, executing, exited, moved, after_pop, thread_handle,
  add_thread, push_job,
}
use uvg_torrent_c.ThreadPool.Schedule.{Caller, idle, adding, posting, closing, started}

module _ {J : Type 0} where
  -- A worker that has been woken and has not looked for a job since.
  abbrev pub is_awake : Pc J → ℕ
  is_awake woken = 1
  is_awake popping = 1
  is_awake testing = 0
  is_awake waiting = 0
  is_awake exited = 0
  is_awake (executing j) = 0

  abbrev pub is_waiting : Pc J → ℕ
  is_waiting waiting = 1
  is_waiting woken = 0
  is_waiting popping = 0
  is_waiting testing = 0
  is_waiting exited = 0
  is_waiting (executing j) = 0

  -- How many of the workers.
  abbrev pub total : (Pc J → ℕ) → List (Pc J) → ℕ
  total f [] = 0
  total f (t ∷ ts) = f t + total f ts

  pub total-append : (f : Pc J → ℕ) (l r : List (Pc J)) → total f (l ++ r) ≡ total f l + total f r
  total-append f [] r = omega arith
  total-append f (t ∷ l) r = omega (arith, total-append f l r)

  pub total-waiting-le : (ts : List (Pc J)) → total is_waiting ts ≤ length ts
  total-waiting-le [] = omega arith
  total-waiting-le (waiting ∷ ts) = omega (arith, total-waiting-le ts)
  total-waiting-le (testing ∷ ts) = omega (arith, total-waiting-le ts)
  total-waiting-le (woken ∷ ts) = omega (arith, total-waiting-le ts)
  total-waiting-le (popping ∷ ts) = omega (arith, total-waiting-le ts)
  total-waiting-le (exited ∷ ts) = omega (arith, total-waiting-le ts)
  total-waiting-le (executing j ∷ ts) = omega (arith, total-waiting-le ts)

  -- The calls of `sem_post` that the caller still makes for a job.
  abbrev pub to_post : Caller J → ℕ
  to_post posting = 1
  to_post idle = 0
  to_post (adding j) = 0
  to_post (closing left) = 0

  -- From `thread_pool_free` on no worker begins to wait, and there is a call for each that waits.
  abbrev pub Closes : Caller J → Shared J → List (Pc J) → Type 0
  Closes (closing left) s ts = (s.cancel_flag ≡ 1) × (total is_waiting ts ≤ s.job_semaphore + left)
  Closes idle s ts = Unit {0}
  Closes posting s ts = Unit {0}
  Closes (adding j) s ts = Unit {0}

  -- What a turn does to the counts.
  abbrev pub TurnKeeps : Pc J → Pc J → Shared J → Shared J → Type 0
  TurnKeeps old new s s' =
      ((s'.job_queue.count ≡ 0)
        ⊎ (s'.job_queue.count + s.job_semaphore + is_awake old
            ≤ s.job_queue.count + s'.job_semaphore + is_awake new))
      × (s'.cancel_flag ≡ s.cancel_flag)
      × (s.cancel_flag ≡ 1 → s.job_semaphore + is_waiting new ≤ s'.job_semaphore + is_waiting old)

  pub pop-TurnKeeps :
      (s s' : Shared J) (new : Pc J)
      → thread_handle popping s ≡ moved new s'
      → TurnKeeps popping new s s'
  unfolding thread_handle after_pop queue_pop
  pop-TurnKeeps s s' new e = ground arith

  pub thread_handle-TurnKeeps :
      (old new : Pc J) (s s' : Shared J)
      → thread_handle old s ≡ moved new s'
      → TurnKeeps old new s s'
  unfolding thread_handle queue_get_count
  thread_handle-TurnKeeps testing new s s' e = ground arith
  thread_handle-TurnKeeps waiting new s s' e = ground arith
  thread_handle-TurnKeeps woken new s s' e = ground arith
  thread_handle-TurnKeeps popping new s s' e = pop-TurnKeeps s s' new e
  thread_handle-TurnKeeps (executing j) new s s' e = ground arith
  thread_handle-TurnKeeps exited new s s' e = absurd (cc e)

  -- The history of the queue goes on through a turn.
  module _ (added taken : List J) (s : Shared J)
      (history : Fifo.Reach added taken s.job_queue s.heap) where
    abbrev pub Goes : Pc J → Pc J → Shared J → Type 0
    Goes old new s' = Fifo.Reach added (taken ++ started old new) s'.job_queue s'.heap

    pub no_job :
        (log : List J) (s' : Shared J)
        → log ≡ []
        → s.job_queue ≡ s'.job_queue
        → s.heap ≡ s'.heap
        → Fifo.Reach added (taken ++ log) s'.job_queue s'.heap
    no_job log s' none_taken same_queue same_heap =
        rw (none_taken, append-nil taken, ← same_queue, ← same_heap) history

    pub pop-Goes :
        (r : Option (Option J × Queue × Nodes J)) (new : Pc J) (s' : Shared J)
        → queue_pop s.job_queue s.heap ≡ r
        → after_pop s r ≡ moved new s'
        → Goes popping new s'
    unfolding after_pop started
    pop-Goes none new s' run e = absurd (cc e)
    pop-Goes (some (none, q, h)) new s' run e =
        let same_new : testing ≡ new = cc e in
        let same_queue : q ≡ s'.job_queue = ground arith in
        let same_heap : h ≡ s'.heap = ground arith in
        rw (← same_new, append-nil taken, ← same_queue, ← same_heap)
          (Fifo.found_empty q h history run)
    pop-Goes (some (some j, q, h)) new s' run e =
        let same_new : executing j ≡ new = cc e in
        let same_queue : q ≡ s'.job_queue = ground arith in
        let same_heap : h ≡ s'.heap = ground arith in
        rw (← same_new, ← same_queue, ← same_heap) (Fifo.popped j q h history run)

    pub turn-Goes :
        (old new : Pc J) (s' : Shared J) → thread_handle old s ≡ moved new s' → Goes old new s'
    unfolding thread_handle started
    turn-Goes testing new s' e = no_job [] s' refl (ground arith) (ground arith)
    turn-Goes waiting new s' e = no_job [] s' refl (ground arith) (ground arith)
    turn-Goes woken new s' e = no_job [] s' refl (ground arith) (ground arith)
    turn-Goes (executing j) new s' e = no_job [] s' refl (ground arith) (ground arith)
    turn-Goes popping new s' e = pop-Goes (queue_pop s.job_queue s.heap) new s' refl e
    turn-Goes exited new s' e = absurd (cc e)

  -- A push adds at most one job to the count.
  pub push-count :
      (place : Option ℕ) (j : J) (status : Queue.Status) (s s' : Shared J)
      → push_job place j s ≡ some (status, s')
      → (s'.job_queue.count ≤ s.job_queue.count + 1)
        × (s'.job_semaphore ≡ s.job_semaphore)
        × (s'.cancel_flag ≡ s.cancel_flag)
  unfolding push_job queue_push
  push-count place j status s s' e = ground arith

  pub push_run :
      (place : Option ℕ) (j : J) (status : Queue.Status) (s s' : Shared J)
      → push_job place j s ≡ some (status, s')
      → queue_push place j s.job_queue s.heap ≡ some (status, s'.job_queue, s'.heap)
  unfolding push_job
  push_run place j status s s' e = ground arith

  pub add_thread-total :
      (created : Bool) (max_threads : ℕ) (ts ts' : List (Pc J))
      → add_thread created max_threads ts ≡ some ts'
      → total is_awake ts' ≡ total is_awake ts
  unfolding add_thread
  add_thread-total created max_threads ts ts' e =
      ground (arith, total-append is_awake ts (testing ∷ []))

  -- The workers before and after a turn.
  pub total-turn :
      (f : Pc J → ℕ) (ts l r : List (Pc J)) (old new : Pc J)
      → ts ≡ l ++ (old ∷ r)
      → total f (l ++ (new ∷ r)) + f old ≡ total f ts + f new
  total-turn f ts l r old new e =
      omega (arith, ap (total f) e, total-append f l (old ∷ r), total-append f l (new ∷ r))

  pub Closes-turn :
      (c : Caller J) (s s' : Shared J) (ts l r : List (Pc J)) (old new : Pc J)
      → ts ≡ l ++ (old ∷ r)
      → s'.cancel_flag ≡ s.cancel_flag
      → (s.cancel_flag ≡ 1 → s.job_semaphore + is_waiting new ≤ s'.job_semaphore + is_waiting old)
      → Closes c s ts
      → Closes c s' (l ++ (new ∷ r))
  Closes-turn idle s s' ts l r old new e flag waits h = tt
  Closes-turn posting s s' ts l r old new e flag waits h = tt
  Closes-turn (adding j) s s' ts l r old new e flag waits h = tt
  Closes-turn (closing left) s s' ts l r old new e flag waits h =
      let (set_, enough) = h in
      (flag ∙ set_, omega (arith, total-turn is_waiting ts l r old new e, waits set_, enough))
