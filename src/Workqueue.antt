-- ===== src/Workqueue.antt =====
-- include/workqueue.cpp and include/workqueue.hpp: the list of waiting jobs, its mutex and its condition, and
-- the threads that use them.
-- A worker and a job are numbers, and a pointer to one is that number or none; the links of the jobs and of the
-- workers are functions of these numbers.
pub mod Stack
pub mod Threads
pub mod Exclusion
pub mod Shutdown
mod Tests
use ilibevent.Base.{ℕ, Bool, true, false, Option, none, some, List, ◌==◌, if◌then◌else◌, update}

-- Who holds jobs_mutex.
pub data Thread : Type 0 where
  worker_thread : ℕ → Thread
  main_thread : Thread

-- The workqueue, with the fields `prev` and `next` of the jobs, `next` and `terminate` of the workers. `prev` of a
-- worker is written and never read. `ran` are the jobs whose function has been called, the last one first.
pub record Workqueue : Type 0 where
  pub workers : Option ℕ
  pub worker_next : ℕ → Option ℕ
  pub terminate : ℕ → Bool
  pub waiting_jobs : Option ℕ
  pub job_prev : ℕ → Option ℕ
  pub job_next : ℕ → Option ℕ
  pub jobs_mutex : Option Thread
  pub ran : List ℕ

-- LL_ADD(job, waiting_jobs)
unfoldable pub ll_add : Workqueue → ℕ → Workqueue
ll_add q job = record q {
  job_prev = update q.job_prev job none;
  job_next = update q.job_next job q.waiting_jobs;
  waiting_jobs = some job;
}

-- if (p != NULL) field[p] = v;
abbrev pub set_at : Option ℕ → (ℕ → Option ℕ) → Option ℕ → ℕ → Option ℕ
set_at none field v = field
set_at (some p) field v = update field p v

abbrev pub is_head : Option ℕ → ℕ → Bool
is_head none job = false
is_head (some head) job = head == job

-- LL_REMOVE(job, waiting_jobs)
unfoldable pub ll_remove : Workqueue → ℕ → Workqueue
ll_remove q job =
    let next = set_at (q.job_prev job) q.job_next (q.job_next job) in
    let prev = set_at (next job) q.job_prev (q.job_prev job) in
    record q {
      waiting_jobs = if is_head q.waiting_jobs job then next job else q.waiting_jobs;
      job_prev = update prev job none;
      job_next = update next job none;
    }

-- LL_ADD(worker, workers), without the `prev`.
unfoldable pub ll_add_worker : Workqueue → ℕ → Workqueue
ll_add_worker q worker = record q {
  worker_next = update q.worker_next worker q.workers;
  workers = some worker;
}
