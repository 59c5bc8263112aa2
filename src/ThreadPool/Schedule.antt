-- ===== src/ThreadPool/Schedule.antt =====
-- All schedules of a pool of src/thread_pool/thread_pool.c: the workers and the one thread that calls
-- `thread_pool_add_job` and `thread_pool_free`, a turn at a time, in any order.
use uvg_torrent_c.Prelude.{ℕ, suc, ◌≡◌, Bool, List, [], ◌∷◌, ◌++◌, none, some, length}
use uvg_torrent_c.Queue.Heap.{Nodes}
use uvg_torrent_c.Queue
use uvg_torrent_c.ThreadPool.{
  Shared, Pc, executing, popping, moved, thread_handle, thread_pool_new, sem_post, add_thread,
  push_job,
}

-- Where the caller stands: outside the pool, in `thread_pool_add_job` before its push or before its
-- `sem_post`, or in `thread_pool_free` with as many calls of `sem_post` left.
pub data Caller (J : Type 0) : Type 0 where
  idle posting : Caller J
  adding : J → Caller J
  closing : ℕ → Caller J

pub record Pool (J : Type 0) : Type 0 where
  pub shared : Shared J
  pub max_threads : ℕ
  pub threads : List (Pc J)
  pub caller : Caller J

module _ {J : Type 0} where
  -- The job that a worker takes by a turn.
  unfoldable pub started : Pc J → Pc J → List J
  started popping (executing j) = j ∷ []
  started _ _ = []

  -- The jobs that have been pushed and those that a worker has taken, in order, and the pool.
  pub data Reach (max_threads : ℕ) : List J → List J → Pool J → Type 0 where
    start :
        (h : Nodes J)
        → Reach max_threads [] [] (record {
          shared = thread_pool_new h;
          max_threads = max_threads;
          threads = [];
          caller = idle;
        })
    turn :
        {added taken : List J} {p : Pool J} (l r : List (Pc J)) (old new : Pc J) (s : Shared J)
        → Reach max_threads added taken p
        → p.threads ≡ l ++ (old ∷ r)
        → thread_handle old p.shared ≡ moved new s
        → Reach max_threads added
            (taken ++ started old new)
            (record p { shared = s; threads = l ++ (new ∷ r) })
    -- `thread_pool_add_job` begins; it fails at once where `pthread_create` does.
    begins :
        {added taken : List J} {p : Pool J} (j : J) (created : Bool) (threads : List (Pc J))
        → Reach max_threads added taken p
        → p.caller ≡ idle
        → add_thread created p.max_threads p.threads ≡ some threads
        → Reach max_threads added taken (record p { threads = threads; caller = adding j })
    -- A push names a node that is not in use.
    pushes :
        {added taken : List J} {p : Pool J} (j : J) (a : ℕ) (s : Shared J)
        → Reach max_threads added taken p
        → p.caller ≡ adding j
        → p.shared.heap a ≡ none
        → push_job (some a) j p.shared ≡ some (Queue.exit_success, s)
        → Reach max_threads (added ++ (j ∷ [])) taken (record p { shared = s; caller = posting })
    out_of_memory :
        {added taken : List J} {p : Pool J} (j : J) (status : Queue.Status) (s : Shared J)
        → Reach max_threads added taken p
        → p.caller ≡ adding j
        → push_job none j p.shared ≡ some (status, s)
        → Reach max_threads added taken (record p { shared = s; caller = posting })
    posts :
        {added taken : List J} {p : Pool J}
        → Reach max_threads added taken p
        → p.caller ≡ posting
        → Reach max_threads added taken (record p { shared = sem_post p.shared; caller = idle })
    -- `thread_pool_free`
    cancels :
        {added taken : List J} {p : Pool J} (s : Shared J)
        → Reach max_threads added taken p
        → p.caller ≡ idle
        → s ≡ record (p.shared) { cancel_flag = 1 }
        → Reach max_threads added taken
            (record p { shared = s; caller = closing (length p.threads) })
    posts_exit :
        {added taken : List J} {p : Pool J} (left : ℕ)
        → Reach max_threads added taken p
        → p.caller ≡ closing (suc left)
        → Reach max_threads added taken
            (record p { shared = sem_post p.shared; caller = closing left })
