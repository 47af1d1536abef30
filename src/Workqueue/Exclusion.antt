-- ===== src/Workqueue/Exclusion.antt =====
-- jobs_mutex: no two threads are between a lock and an unlock at the same time.
use ilibevent.Base.{
  ℕ, ◌≡◌, refl, sym, ap, ◌∙◌, ◌⊎◌, inl, inr, Bool, true, false, none, some, arith, ◌==◌, Bool-cases,
  update,
}
use ilibevent.Base.Int.{ℤ}
use ilibevent.Workqueue.{
  Thread, worker_thread, main_thread, Workqueue, ll_add, ll_remove, ll_add_worker,
}
use ilibevent.Workqueue.Threads.{
  Pc, unborn, at_lock, at_loop, in_wait, at_relock, at_terminate, at_take, at_free, gone, at_unlock,
  at_job, MainPc, starting, outside, add_lock, add_link, add_signal, add_unlock, marking, stop_lock,
  stop_clear, stop_broadcast, stop_unlock, woken_pc, Move, lock, has_jobs, breaks, waits, wakes,
  relock, leaves, stays, takes, takes_none, unlock, continues, runs, frees, Act, starts, started,
  start_fails, adds, add_locks, add_links, signals, signals_none, add_unlocks, stops, marks, marked,
  stop_locks, clears, broadcasts, stop_unlocks, System, Step, worker, other, workqueue_init, Steps,
  here, later,
}

-- The worker has taken the mutex and not given it back.
abbrev pub critical : Pc → Bool
critical unborn = false
critical at_lock = false
critical at_loop = true
critical in_wait = false
critical at_relock = false
critical at_terminate = true
critical at_take = true
critical at_free = true
critical gone = true
critical (at_unlock job) = true
critical (at_job job) = false

abbrev pub main_critical : MainPc → Bool
main_critical (starting i) = false
main_critical outside = false
main_critical (add_lock j) = false
main_critical (add_link j) = true
main_critical (add_signal j) = true
main_critical (add_unlock j) = true
main_critical (marking w) = false
main_critical stop_lock = false
main_critical stop_clear = true
main_critical stop_broadcast = true
main_critical stop_unlock = true

-- A thread that has taken the mutex holds it.
pub record Owned (s : System) : Type 0 where
  pub workers : (i : ℕ) → critical (s.pc i) ≡ true → s.queue.jobs_mutex ≡ some (worker_thread i)
  pub main : main_critical s.main ≡ true → s.queue.jobs_mutex ≡ some main_thread

-- What a step of a thread `t` does to the mutex, and to whether the thread is between a lock and an unlock.
abbrev Change : Thread → Workqueue → Workqueue → Bool → Bool → Type 0
Change t q q' before after =
    ((q'.jobs_mutex ≡ q.jobs_mutex) × (after ≡ before))
    ⊎ ((q.jobs_mutex ≡ none) × (q'.jobs_mutex ≡ some t))
    ⊎ ((before ≡ true) × (q'.jobs_mutex ≡ none) × (after ≡ false))

Move-Change :
    {i : ℕ} {q q' : Workqueue} {p p' : Pc}
    → Move i q p q' p'
    → Change (worker_thread i) q q' (critical p) (critical p')
unfolding ll_remove
Move-Change (lock free) = inr (inl (free, refl))
Move-Change (has_jobs j h) = inl (refl, refl)
Move-Change (breaks h t) = inl (refl, refl)
Move-Change (waits h t) = inr (inr (refl, refl, refl))
Move-Change wakes = inl (refl, refl)
Move-Change (relock free) = inr (inl (free, refl))
Move-Change (leaves h) = inl (refl, refl)
Move-Change (stays h) = inl (refl, refl)
Move-Change (takes j h) = inl (refl, refl)
Move-Change (takes_none h) = inl (refl, refl)
Move-Change (unlock job) = inr (inr (refl, refl, refl))
Move-Change continues = inl (refl, refl)
Move-Change (runs j) = inl (refl, refl)
Move-Change frees = inl (refl, refl)

-- No worker comes to hold the mutex by a step of the other thread.
abbrev Spares : (ℕ → Pc) → (ℕ → Pc) → Type 0
Spares pc pc' = (i : ℕ) → critical (pc' i) ≡ true → critical (pc i) ≡ true

Spares-update : (pc : ℕ → Pc) (i : ℕ) (p : Pc) → critical p ≡ false → Spares pc (update pc i p)
Spares-update pc i p h j c = elim (Bool-cases (j == i)) [
  | inl same ↦ absurd (ground arith)
  | inr ne ↦ sym (ap critical (apart j ne)) ∙ c
]
  where
    apart : (j : ℕ) → (j == i) ≡ false → update pc i p j ≡ pc j
    apart j ne = ground arith

Spares-woken : (p : Pc) → critical (woken_pc p) ≡ true → critical p ≡ true
Spares-woken unborn c = c
Spares-woken at_lock c = c
Spares-woken at_loop c = c
Spares-woken in_wait c = c
Spares-woken at_relock c = c
Spares-woken at_terminate c = c
Spares-woken at_take c = c
Spares-woken at_free c = c
Spares-woken gone c = c
Spares-woken (at_unlock job) c = c
Spares-woken (at_job job) c = c

act-Change :
    {n : ℤ} {q q' : Workqueue} {pc pc' : ℕ → Pc} {m m' : MainPc}
    → Act n q pc m q' pc' m'
    → Change main_thread q q' (main_critical m) (main_critical m') × Spares pc pc'
unfolding ll_add ll_add_worker
act-Change {pc = pc} (starts i h) = (inl (refl, refl), Spares-update pc i at_lock refl)
act-Change started = (inl (refl, refl), λ i c. c)
act-Change (start_fails i) = (inl (refl, refl), λ i c. c)
act-Change (adds j) = (inl (refl, refl), λ i c. c)
act-Change (add_locks j free) = (inr (inl (free, refl)), λ i c. c)
act-Change (add_links j) = (inl (refl, refl), λ i c. c)
act-Change {pc = pc} (signals j i h) = (inl (refl, refl), Spares-update pc i at_relock refl)
act-Change (signals_none j h) = (inl (refl, refl), λ i c. c)
act-Change (add_unlocks j) = (inr (inr (refl, refl, refl)), λ i c. c)
act-Change stops = (inl (refl, refl), λ i c. c)
act-Change (marks i) = (inl (refl, refl), λ i c. c)
act-Change marked = (inl (refl, refl), λ i c. c)
act-Change (stop_locks free) = (inr (inl (free, refl)), λ i c. c)
act-Change clears = (inl (refl, refl), λ i c. c)
act-Change {pc = pc} broadcasts = (inl (refl, refl), λ i c. Spares-woken (pc i) c)
act-Change stop_unlocks = (inr (inr (refl, refl, refl)), λ i c. c)

pub init-Owned : Owned workqueue_init
init-Owned = record { workers = λ i c. absurd (ground arith); main = λ c. absurd (ground arith) }

-- A worker that is not the one that moves.
module _ (s : System) (o : Owned s) (i : ℕ) (q : Workqueue) (p : Pc) where
  abbrev moved : System
  moved = record { queue = q; pc = update s.pc i p; main = s.main }

  moved_pc : (j : ℕ) → (j == i) ≡ true → update s.pc i p j ≡ p
  moved_pc j same = ground arith

  apart : (j : ℕ) → (j == i) ≡ false → update s.pc i p j ≡ s.pc j
  apart j ne = ground arith

  named : (j : ℕ) → (j == i) ≡ true → some (worker_thread i) ≡ some (worker_thread j)
  named j same = ap (λ k. some (worker_thread k)) (ground arith)

  worker-Owned : Change (worker_thread i) s.queue q (critical (s.pc i)) (critical p) → Owned moved
  worker-Owned (inl (same, kept)) = record {
    workers = λ j c. elim (Bool-cases (j == i)) [
      | inl eq ↦ same ∙ o.workers i (sym kept ∙ sym (ap critical (moved_pc j eq)) ∙ c) ∙ named j eq
      | inr ne ↦ same ∙ o.workers j (sym (ap critical (apart j ne)) ∙ c)
    ];
    main = λ c. same ∙ o.main c;
  }
  worker-Owned (inr (inl (free, taken))) = record {
    workers = λ j c. elim (Bool-cases (j == i)) [
      | inl eq ↦ taken ∙ named j eq
      | inr ne ↦ absurd (ground (arith, free, o.workers j (sym (ap critical (apart j ne)) ∙ c)))
    ];
    main = λ c. absurd (ground (arith, free, o.main c));
  }
  worker-Owned (inr (inr (had, free, left))) = record {
    workers = λ j c. elim (Bool-cases (j == i)) [
      | inl eq ↦ absurd (ground (arith, left, sym (ap critical (moved_pc j eq)) ∙ c))
      | inr ne ↦
          absurd (ground (arith, o.workers i had, o.workers j (sym (ap critical (apart j ne)) ∙ c)))
    ];
    main = λ c. absurd (ground (arith, o.workers i had, o.main c));
  }

other-Owned :
    (s : System) (q : Workqueue) (pc : ℕ → Pc) (m : MainPc)
    → Owned s
    → Change main_thread s.queue q (main_critical s.main) (main_critical m)
    → Spares s.pc pc
    → Owned (record { queue = q; pc = pc; main = m })
other-Owned s q pc m o (inl (same, kept)) spares = record {
  workers = λ j c. same ∙ o.workers j (spares j c);
  main = λ c. same ∙ o.main (sym kept ∙ c);
}
other-Owned s q pc m o (inr (inl (free, taken))) spares = record {
  workers = λ j c. absurd (ground (arith, free, o.workers j (spares j c)));
  main = λ c. taken;
}
other-Owned s q pc m o (inr (inr (had, free, left))) spares = record {
  workers = λ j c. absurd (ground (arith, o.main had, o.workers j (spares j c)));
  main = λ c. absurd (ground arith);
}

step-Owned : {n : ℤ} {s t : System} → Owned s → Step n s t → Owned t
step-Owned {s = s} o (worker i {q} {p} move) = worker-Owned s o i q p (Move-Change move)
step-Owned {s = s} o (other {q} {pc} {m} act) =
    let (change, spares) = act-Change act in other-Owned s q pc m o change spares

pub Steps-Owned : {n : ℤ} {s t : System} → Owned s → Steps n s t → Owned t
Steps-Owned o here = o
Steps-Owned o (later steps step) = step-Owned (Steps-Owned o steps) step

-- Whatever the threads do after workqueue_init has begun, no two workers are between a lock and an unlock of
-- jobs_mutex at the same time, and no worker is while the other thread is. So the list of jobs is never
-- changed by two threads at once. A worker that has left its loop counts as one that holds the mutex.
pub init-Exclusive :
    (n : ℤ) (s : System)
    → Steps n workqueue_init s
    → ((i j : ℕ) → critical (s.pc i) ≡ true → critical (s.pc j) ≡ true → i ≡ j)
      × ((i : ℕ) → critical (s.pc i) ≡ true → main_critical s.main ≡ false)
init-Exclusive n s steps =
    let o = Steps-Owned init-Owned steps in
    (
      λ i j p q. ground (arith, o.workers i p, o.workers j q),
      λ i p. elim (Bool-cases (main_critical s.main)) [
        | inl h ↦ absurd (ground (arith, o.workers i p, o.main h))
        | inr h ↦ h
      ],
    )
