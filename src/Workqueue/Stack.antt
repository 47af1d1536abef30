-- ===== src/Workqueue/Stack.antt =====
-- The jobs are taken in the opposite order of their arrival.
use ilibevent.Base.{
  ℕ, ◌≡◌, refl, ap, ◌∙◌, Bool, true, false, if◌then◌else◌, Option, none, some, List, [], ◌∷◌, arith,
  ◌==◌, update,
}
use ilibevent.TailQueue.Chain.{has, Distinct}
use ilibevent.Workqueue.{Workqueue, set_at, is_head, ll_add, ll_remove}

-- The jobs from `head` on along `next`.
abbrev pub Chained : (ℕ → Option ℕ) → Option ℕ → List ℕ → Type 0
Chained next head [] = head ≡ none
Chained next head (x ∷ xs) = (head ≡ some x) × Chained next (next x) xs

-- The waiting jobs, the next one to be taken first; no job of them has a `prev`.
pub record Stacked (q : Workqueue) (jobs : List ℕ) : Type 0 where
  pub chain : Chained q.job_next q.waiting_jobs jobs
  pub distinct : Distinct jobs
  pub firsts : (x : ℕ) → has x jobs ≡ true → q.job_prev x ≡ none

Chained-eq :
    (f g : ℕ → Option ℕ) (head : Option ℕ) (xs : List ℕ)
    → ((x : ℕ) → has x xs ≡ true → g x ≡ f x)
    → Chained f head xs
    → Chained g head xs
Chained-eq f g head [] h c = c
Chained-eq f g head (x ∷ xs) h (at, c) =
    (at, rw (h x (ground arith)) (Chained-eq f g (f x) xs (λ y p. h y (ground arith)) c))

-- LL_ADD of a job that does not wait puts it in front.
pub ll_add-Stacked :
    (q : Workqueue) (jobs : List ℕ) (job : ℕ)
    → Stacked q jobs
    → has job jobs ≡ false
    → Stacked (ll_add q job) (job ∷ jobs)
unfolding ll_add
ll_add-Stacked q jobs job s h = record {
  chain = (
    refl,
    rw (at q.job_next job q.waiting_jobs) (
        Chained-eq q.job_next (update q.job_next job q.waiting_jobs) q.waiting_jobs jobs
          (λ x p. ground arith) s.chain),
  );
  distinct = (h, s.distinct);
  firsts = λ x p. ground (arith, s.firsts x);
}
  where
    at : (f : ℕ → Option ℕ) (e : ℕ) (v : Option ℕ) → update f e v e ≡ v
    at f e v = ground arith

-- What LL_REMOVE does to the job at the head.
abbrev popped : Workqueue → ℕ → Workqueue
popped q job = record q {
  waiting_jobs = q.job_next job;
  job_prev = update (set_at (q.job_next job) q.job_prev none) job none;
  job_next = update q.job_next job none;
}

-- LL_REMOVE, given the `prev` of the job and whether it is the head.
abbrev removed : Workqueue → ℕ → Option ℕ → Bool → Workqueue
removed q job before head =
    let next = set_at before q.job_next (q.job_next job) in
    let prev = set_at (next job) q.job_prev before in
    record q {
      waiting_jobs = if head then next job else q.waiting_jobs;
      job_prev = update prev job none;
      job_next = update next job none;
    }

remove-popped :
    (q : Workqueue) (job : ℕ)
    → q.waiting_jobs ≡ some job
    → q.job_prev job ≡ none
    → ll_remove q job ≡ popped q job
unfolding ll_remove
remove-popped q job head first =
    ap (λ b. removed q job b (is_head q.waiting_jobs job)) first
    ∙ ap (removed q job none) (ap (λ h. is_head h job) head ∙ self job)
  where
    self : (n : ℕ) → (n == n) ≡ true
    self n = ground arith

-- The first job is taken, and the others stay.
pub ll_remove-Stacked :
    (q : Workqueue) (job : ℕ) (jobs : List ℕ)
    → Stacked q (job ∷ jobs)
    → Stacked (ll_remove q job) jobs
ll_remove-Stacked q job jobs s =
    rw (remove-popped q job s.chain.0 (s.firsts job (ground arith))) (record {
      chain =
          Chained-eq q.job_next (update q.job_next job none) (q.job_next job) jobs
            (λ x p. ground (arith, s.distinct.0)) s.chain.1;
      distinct = s.distinct.1;
      firsts = λ x p. still (q.job_next job) x (s.firsts x (ground arith));
    })
  where
    still :
        (p : Option ℕ) (x : ℕ)
        → q.job_prev x ≡ none
        → update (set_at p q.job_prev none) job none x ≡ none
    still none x h = ground arith
    still (some y) x h = ground arith
