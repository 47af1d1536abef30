-- ===== src/Workqueue/Tests.antt =====
-- Runs of the threads of a workqueue, and the theorems at states that are reached.
use ilibevent.Base.{ℕ, ◌≡◌, refl, true, false, some, arith, update}
use ilibevent.Base.Int.{pos}
use ilibevent.Workqueue.{worker_thread, Workqueue, ll_add_worker}
use ilibevent.Workqueue.Threads.{
  Pc, unborn, at_lock, at_loop, at_terminate, at_free, gone, stop_lock, lock, breaks, leaves, frees,
  starts, started, stops, marks, marked, System, worker, other, blank, workqueue_init, Steps, here,
  later,
}
use ilibevent.Workqueue.Exclusion.{critical, main_critical, init-Exclusive}
use ilibevent.Workqueue.Shutdown.{Frozen, leave-Frozen}

-- One worker.
abbrev one : Workqueue
one = ll_add_worker blank 0

abbrev pc₀ : ℕ → Pc
pc₀ = update (λ _. unborn) 0 at_lock

-- The worker is told to end.
abbrev told : Workqueue
told = record one { terminate = update (λ _. false) 0 true }

abbrev held : Workqueue
held = record told { jobs_mutex = some (worker_thread 0) }

-- The worker has left its loop, and workqueue_shutdown is about to lock the mutex.
abbrev stuck : System
stuck = record {
  queue = held;
  pc = update (update (update pc₀ 0 at_loop) 0 at_terminate) 0 at_free;
  main = stop_lock;
}

after_marking : Steps (pos 1) workqueue_init (record { queue = told; pc = pc₀; main = stop_lock })
unfolding ll_add_worker
after_marking =
    later
      (later
        (later (later (later here (other (starts 0 (omega arith)))) (other started)) (other stops))
        (other (marks 0)))
      (other marked)

to_stuck : Steps (pos 1) workqueue_init stuck
unfolding ll_add_worker
to_stuck =
    later (later (later after_marking (worker 0 (lock refl))) (worker 0 (breaks refl refl)))
      (worker 0 (leaves refl))

init-Exclusive_example :
    ((i j : ℕ) → critical (stuck.pc i) ≡ true → critical (stuck.pc j) ≡ true → i ≡ j)
    × ((i : ℕ) → critical (stuck.pc i) ≡ true → main_critical stuck.main ≡ false)
init-Exclusive_example = init-Exclusive (pos 1) stuck to_stuck

leave-Frozen_example : Frozen 0 stuck (record stuck { pc = update stuck.pc 0 gone })
leave-Frozen_example =
    leave-Frozen (pos 1) 0 stuck (record stuck { pc = update stuck.pc 0 gone }) to_stuck refl refl
      (later here (worker 0 frees))
