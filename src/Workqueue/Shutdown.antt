-- ===== src/Workqueue/Shutdown.antt =====
-- workqueue_shutdown: a worker that finds `terminate` set leaves its loop with the mutex.
use ilibevent.Base.{
  ℕ, ◌≡◌, refl, ap, ◌∙◌, Bool, true, false, some, arith, ◌==◌, Bool-cases, inl, inr, update,
}
use ilibevent.Base.Int.{ℤ}
use ilibevent.Workqueue.{Thread, worker_thread, Workqueue}
use ilibevent.Workqueue.Exclusion.{critical, Owned, init-Owned, Steps-Owned}
use ilibevent.Workqueue.Threads.{
  Pc, unborn, at_lock, at_loop, in_wait, at_relock, at_terminate, at_take, at_free, gone, at_unlock,
  at_job, MainPc, starting, outside, add_lock, add_link, add_signal, add_unlock, marking, stop_lock,
  stop_clear, stop_broadcast, stop_unlock, Move, lock, has_jobs, breaks, waits, wakes, relock,
  leaves, stays, takes, takes_none, unlock, continues, runs, frees, Act, starts, started,
  start_fails, adds, add_locks, add_links, signals, signals_none, add_unlocks, stops, marks, marked,
  stop_locks, clears, broadcasts, stop_unlocks, System, Step, worker, other, workqueue_init, Steps,
  here, later,
}

-- Behind the loop of worker_function.
abbrev pub left_loop : Pc → Bool
left_loop unborn = false
left_loop at_lock = false
left_loop at_loop = false
left_loop in_wait = false
left_loop at_relock = false
left_loop at_terminate = false
left_loop at_take = false
left_loop at_free = true
left_loop gone = true
left_loop (at_unlock job) = false
left_loop (at_job job) = false

-- At the pthread_mutex_lock of workqueue_add_job or workqueue_shutdown.
abbrev pub at_main_lock : MainPc → Bool
at_main_lock (starting i) = false
at_main_lock outside = false
at_main_lock (add_lock j) = true
at_main_lock (add_link j) = false
at_main_lock (add_signal j) = false
at_main_lock (add_unlock j) = false
at_main_lock (marking w) = false
at_main_lock stop_lock = true
at_main_lock stop_clear = false
at_main_lock stop_broadcast = false
at_main_lock stop_unlock = false

left-critical : (p : Pc) → left_loop p ≡ true → critical p ≡ true
left-critical unborn h = absurd (ground arith)
left-critical at_lock h = absurd (ground arith)
left-critical at_loop h = refl
left-critical in_wait h = absurd (ground arith)
left-critical at_relock h = absurd (ground arith)
left-critical at_terminate h = refl
left-critical at_take h = refl
left-critical at_free h = refl
left-critical gone h = refl
left-critical (at_unlock job) h = refl
left-critical (at_job job) h = absurd (ground arith)

-- A step that leaves the mutex and the waiting jobs alone.
abbrev Same : Workqueue → Workqueue → Type 0
Same q q' = (q'.jobs_mutex ≡ q.jobs_mutex) × (q'.waiting_jobs ≡ q.waiting_jobs)

last-Move :
    {i : ℕ} {q q' : Workqueue} {p p' : Pc}
    → Move i q p q' p'
    → left_loop p ≡ true
    → Same q q' × (left_loop p' ≡ true)
last-Move frees h = ((refl, refl), refl)
last-Move (lock free) h = absurd (ground arith)
last-Move (has_jobs j e) h = absurd (ground arith)
last-Move (breaks e t) h = absurd (ground arith)
last-Move (waits e t) h = absurd (ground arith)
last-Move wakes h = absurd (ground arith)
last-Move (relock free) h = absurd (ground arith)
last-Move (leaves e) h = absurd (ground arith)
last-Move (stays e) h = absurd (ground arith)
last-Move (takes j e) h = absurd (ground arith)
last-Move (takes_none e) h = absurd (ground arith)
last-Move (unlock job) h = absurd (ground arith)
last-Move continues h = absurd (ground arith)
last-Move (runs j) h = absurd (ground arith)

-- A worker without the mutex, while another thread has it.
shut_out :
    {i : ℕ} {q q' : Workqueue} {p p' : Pc} (t : Thread)
    → Move i q p q' p'
    → critical p ≡ false
    → q.jobs_mutex ≡ some t
    → Same q q'
shut_out t (lock free) h held = absurd (ground arith)
shut_out t (has_jobs j e) h held = absurd (ground arith)
shut_out t (breaks e f) h held = absurd (ground arith)
shut_out t (waits e f) h held = absurd (ground arith)
shut_out t wakes h held = (refl, refl)
shut_out t (relock free) h held = absurd (ground arith)
shut_out t (leaves e) h held = absurd (ground arith)
shut_out t (stays e) h held = absurd (ground arith)
shut_out t (takes j e) h held = absurd (ground arith)
shut_out t (takes_none e) h held = absurd (ground arith)
shut_out t (unlock job) h held = absurd (ground arith)
shut_out t continues h held = (refl, refl)
shut_out t (runs j) h held = (refl, refl)
shut_out t frees h held = absurd (ground arith)

no_act :
    {n : ℤ} {q q' : Workqueue} {pc pc' : ℕ → Pc} {m m' : MainPc} (t : Thread)
    → Act n q pc m q' pc' m'
    → at_main_lock m ≡ true
    → q.jobs_mutex ≡ some t
    → ⊥
no_act t (add_locks j free) h held = ground arith
no_act t (stop_locks free) h held = ground arith
no_act t (starts i l) h held = ground arith
no_act t started h held = ground arith
no_act t (start_fails i) h held = ground arith
no_act t (adds j) h held = ground arith
no_act t (add_links j) h held = ground arith
no_act t (signals j i e) h held = ground arith
no_act t (signals_none j e) h held = ground arith
no_act t (add_unlocks j) h held = ground arith
no_act t stops h held = ground arith
no_act t (marks i) h held = ground arith
no_act t marked h held = ground arith
no_act t clears h held = ground arith
no_act t broadcasts h held = ground arith
no_act t stop_unlocks h held = ground arith

-- For the worker `i`: it has the mutex for good, nothing comes to the waiting jobs or leaves them, the
-- other thread stands where it stood, and every other worker is without the mutex.
pub record Frozen (i : ℕ) (s t : System) : Type 0 where
  pub held : t.queue.jobs_mutex ≡ some (worker_thread i)
  pub jobs : t.queue.waiting_jobs ≡ s.queue.waiting_jobs
  pub main : t.main ≡ s.main
  pub left : left_loop (t.pc i) ≡ true
  pub shut : (j : ℕ) → (j == i) ≡ false → critical (t.pc j) ≡ false

others_out :
    (s : System) (i : ℕ)
    → Owned s
    → left_loop (s.pc i) ≡ true
    → (j : ℕ) → (j == i) ≡ false
    → critical (s.pc j) ≡ false
others_out s i o h j ne = elim (Bool-cases (critical (s.pc j))) [
  | inl c ↦ absurd (ground (arith, o.workers i (left-critical (s.pc i) h), o.workers j c))
  | inr c ↦ c
]

module _ {n : ℤ} (i : ℕ) (s : System) (stuck : at_main_lock s.main ≡ true) where
  step-Frozen : {t u : System} → Owned u → Frozen i s t → Step n t u → Frozen i s u
  step-Frozen {t} o f (other act) =
      absurd (no_act (worker_thread i) act (ap at_main_lock f.main ∙ stuck) f.held)
  step-Frozen {t} o f (worker j {q} {p} move) = elim (Bool-cases (j == i)) [
    | inl same ↦
        let ((mutex, jobs), left) =
          last-Move move (ap (λ k. left_loop (t.pc k)) (number j i same) ∙ f.left) in
        record {
          held = mutex ∙ f.held;
          jobs = jobs ∙ f.jobs;
          main = f.main;
          left = ap left_loop (at_moved j i p same) ∙ left;
          shut = others_out _ i o (ap left_loop (at_moved j i p same) ∙ left);
        }
    | inr ne ↦
        let (mutex, jobs) = shut_out (worker_thread i) move (f.shut j ne) f.held in
        record {
          held = mutex ∙ f.held;
          jobs = jobs ∙ f.jobs;
          main = f.main;
          left = ap left_loop (at_other j i p (apart j i ne)) ∙ f.left;
          shut = others_out _ i o (ap left_loop (at_other j i p (apart j i ne)) ∙ f.left);
        }
  ]
    where
      apart : (a b : ℕ) → (a == b) ≡ false → (b == a) ≡ false
      apart a b h = ground arith

      number : (a b : ℕ) → (a == b) ≡ true → a ≡ b
      number a b h = ground arith

      at_moved : (j k : ℕ) (p : Pc) → (j == k) ≡ true → update t.pc j p k ≡ p
      at_moved j k p h = ground arith

      at_other : (j k : ℕ) (p : Pc) → (k == j) ≡ false → update t.pc j p k ≡ t.pc k
      at_other j k p h = ground arith

-- Once a worker has left its loop, and the other thread is about to lock the mutex in workqueue_add_job or
-- workqueue_shutdown, then, in every continuation, that thread never gets the mutex, no other worker gets it, so
-- that none of them ever ends, and no waiting job is ever taken: the worker has kept the mutex.
pub leave-Frozen :
    (n : ℤ) (i : ℕ) (s t : System)
    → Steps n workqueue_init s
    → left_loop (s.pc i) ≡ true
    → at_main_lock s.main ≡ true
    → Steps n s t
    → Frozen i s t
leave-Frozen n i s t reached left stuck steps = go steps
  where
    o : Owned s
    o = Steps-Owned init-Owned reached

    go : {u : System} → Steps n s u → Frozen i s u
    go here = record {
      held = o.workers i (left-critical (s.pc i) left);
      jobs = refl;
      main = refl;
      left = left;
      shut = others_out s i o left;
    }
    go (later before step) =
        step-Frozen i s stuck (Steps-Owned o (later before step)) (go before) step
