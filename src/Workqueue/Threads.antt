-- ===== src/Workqueue/Threads.antt =====
-- The threads of a workqueue, in any interleaving: the workers, and the thread that makes the workers, adds jobs
-- and shuts down.
-- One step is what a thread does between two points where another one can be seen to act: it takes the mutex, or it
-- does one statement with it, or it gives it back. pthread_cond_wait gives the mutex back and takes it again when the
-- thread has been woken, which may happen without a signal.
use ilibevent.Base.{ℕ, zero, suc, ◌<◌, ◌≡◌, ◌≢◌, true, false, Option, none, some, [], ◌∷◌, update}
use ilibevent.Base.Int.{ℤ, pos, negsuc}
use ilibevent.Workqueue.{worker_thread, main_thread, Workqueue, ll_add, ll_remove, ll_add_worker}

-- Where a worker is in worker_function. `at_loop` is `while (waiting_jobs == NULL)`, with the test under it;
-- `at_terminate` the test behind it; `at_unlock` has the job that was taken, and `at_job` is behind the unlock.
-- `at_free` is behind the loop, and `gone` behind the `free`.
pub data Pc : Type 0 where
  unborn at_lock at_loop in_wait at_relock at_terminate at_take at_free gone : Pc
  at_unlock at_job : Option ℕ → Pc

-- Where the other thread is: in workqueue_init, with the next worker to start; in no function; in
-- workqueue_add_job; or in workqueue_shutdown, first in the loop that marks the workers.
pub data MainPc : Type 0 where
  starting : ℕ → MainPc
  outside : MainPc
  add_lock add_link add_signal add_unlock : ℕ → MainPc
  marking : Option ℕ → MainPc
  stop_lock stop_clear stop_broadcast stop_unlock : MainPc

-- What pthread_cond_broadcast does.
abbrev pub woken_pc : Pc → Pc
woken_pc in_wait = at_relock
woken_pc unborn = unborn
woken_pc at_lock = at_lock
woken_pc at_loop = at_loop
woken_pc at_relock = at_relock
woken_pc at_terminate = at_terminate
woken_pc at_take = at_take
woken_pc at_free = at_free
woken_pc gone = gone
woken_pc (at_unlock job) = at_unlock job
woken_pc (at_job job) = at_job job

-- One step of the worker `i`.
pub data Move (i : ℕ) (q : Workqueue) : Pc → Workqueue → Pc → Type 0 where
  lock :
      q.jobs_mutex ≡ none
      → Move i q at_lock (record q { jobs_mutex = some (worker_thread i) }) at_loop
  has_jobs : (j : ℕ) → q.waiting_jobs ≡ some j → Move i q at_loop q at_terminate
  breaks : q.waiting_jobs ≡ none → q.terminate i ≡ true → Move i q at_loop q at_terminate
  waits :
      q.waiting_jobs ≡ none
      → q.terminate i ≡ false
      → Move i q at_loop (record q { jobs_mutex = none }) in_wait
  wakes : Move i q in_wait q at_relock
  relock :
      q.jobs_mutex ≡ none
      → Move i q at_relock (record q { jobs_mutex = some (worker_thread i) }) at_loop
  leaves : q.terminate i ≡ true → Move i q at_terminate q at_free
  stays : q.terminate i ≡ false → Move i q at_terminate q at_take
  takes : (j : ℕ) → q.waiting_jobs ≡ some j → Move i q at_take (ll_remove q j) (at_unlock (some j))
  takes_none : q.waiting_jobs ≡ none → Move i q at_take q (at_unlock none)
  unlock : (job : Option ℕ) → Move i q (at_unlock job) (record q { jobs_mutex = none }) (at_job job)
  continues : Move i q (at_job none) q at_lock
  runs : (j : ℕ) → Move i q (at_job (some j)) (record q { ran = j ∷ q.ran }) at_lock
  frees : Move i q at_free q gone

-- The number of workers that workqueue_init starts: one if fewer are asked for.
abbrev pub workers_to_start : ℤ → ℕ
workers_to_start (pos zero) = 1
workers_to_start (pos (suc k)) = suc k
workers_to_start (negsuc k) = 1

-- One step of the other thread, which also starts and wakes workers. `n` is the number of workers
-- asked for. A signal wakes a worker that waits, if there is one.
pub data Act (n : ℤ) (q : Workqueue) (pc : ℕ → Pc)
    : MainPc → Workqueue → (ℕ → Pc) → MainPc → Type 0 where
  starts :
      (i : ℕ)
      → i < workers_to_start n
      → Act n q pc (starting i) (ll_add_worker q i) (update pc i at_lock) (starting (suc i))
  started : Act n q pc (starting (workers_to_start n)) q pc outside
  start_fails : (i : ℕ) → Act n q pc (starting i) q pc outside
  adds : (j : ℕ) → Act n q pc outside q pc (add_lock j)
  add_locks :
      (j : ℕ)
      → q.jobs_mutex ≡ none
      → Act n q pc (add_lock j) (record q { jobs_mutex = some main_thread }) pc (add_link j)
  add_links : (j : ℕ) → Act n q pc (add_link j) (ll_add q j) pc (add_signal j)
  signals :
      (j i : ℕ)
      → pc i ≡ in_wait
      → Act n q pc (add_signal j) q (update pc i at_relock) (add_unlock j)
  signals_none :
      (j : ℕ) → ((i : ℕ) → pc i ≢ in_wait) → Act n q pc (add_signal j) q pc (add_unlock j)
  add_unlocks : (j : ℕ) → Act n q pc (add_unlock j) (record q { jobs_mutex = none }) pc outside
  stops : Act n q pc outside q pc (marking q.workers)
  marks :
      (i : ℕ)
      → Act n q pc
          (marking (some i))
          (record q { terminate = update q.terminate i true })
          pc
          (marking (q.worker_next i))
  marked : Act n q pc (marking none) q pc stop_lock
  stop_locks :
      q.jobs_mutex ≡ none
      → Act n q pc stop_lock (record q { jobs_mutex = some main_thread }) pc stop_clear
  clears :
      Act n q pc stop_clear (record q { workers = none; waiting_jobs = none }) pc stop_broadcast
  broadcasts : Act n q pc stop_broadcast q (λ i. woken_pc (pc i)) stop_unlock
  stop_unlocks : Act n q pc stop_unlock (record q { jobs_mutex = none }) pc outside

pub record System : Type 0 where
  pub queue : Workqueue
  pub pc : ℕ → Pc
  pub main : MainPc

pub data Step (n : ℤ) (s : System) : System → Type 0 where
  worker :
      (i : ℕ) {q : Workqueue} {p : Pc}
      → Move i s.queue (s.pc i) q p
      → Step n s (record { queue = q; pc = update s.pc i p; main = s.main })
  other :
      {q : Workqueue} {pc : ℕ → Pc} {m : MainPc}
      → Act n s.queue s.pc s.main q pc m
      → Step n s (record { queue = q; pc = pc; main = m })

-- memset(workqueue, 0, ...), with the mutex and the condition fresh.
abbrev pub blank : Workqueue
blank = record {
  workers = none;
  worker_next = λ _. none;
  terminate = λ _. false;
  waiting_jobs = none;
  job_prev = λ _. none;
  job_next = λ _. none;
  jobs_mutex = none;
  ran = [];
}

abbrev pub workqueue_init : System
workqueue_init = record { queue = blank; pc = λ _. unborn; main = starting 0 }

-- What some steps lead to.
pub data Steps (n : ℤ) (s : System) : System → Type 0 where
  here : Steps n s s
  later : {t u : System} → Steps n s t → Step n t u → Steps n s u
