-- ===== src/Startup/Recovered.antt =====
-- No deadline is lost over a restart.
use agent_repository.Common.{
  ℕ, ◌≡◌, refl, ap, ◌∙◌, true, none, some, [], ◌∷◌, Dict, lookup, insert, HasKeys, lookup-insert,
  arith,
}
use agent_repository.Models.{Job}
use agent_repository.Session.{Session}
use agent_repository.Startup.{has_deadline_status, waiting_jobs, enqueue_all, recover_deadlines}

-- The entries of the queue after all jobs have been put in.
abbrev enqueued : Dict ℕ → Dict ℕ → Dict ℕ
enqueued [] queue = queue
enqueued ((k, t) ∷ jobs) queue = enqueued jobs (insert k t queue)

enqueue_all-enqueued :
    (jobs : Dict ℕ) (s : Session)
    → s.env.redis_up ≡ true
    → (enqueue_all jobs s).1.redis.deadlines ≡ enqueued jobs s.redis.deadlines
unfolding enqueue_all
enqueue_all-enqueued [] s up = refl
enqueue_all-enqueued ((k, t) ∷ jobs) s up = ground (
  arith,
  enqueue_all-enqueued jobs
      (record s { redis = record s.redis { deadlines = insert k t s.redis.deadlines } }) up,
)

enqueued-kept :
    (i : ℕ) (jobs queue : Dict ℕ)
    → lookup i jobs ≡ none
    → lookup i (enqueued jobs queue) ≡ lookup i queue
unfolding lookup
enqueued-kept i [] queue h = refl
enqueued-kept i ((k, t) ∷ jobs) queue h =
    ground (arith, enqueued-kept i jobs (insert k t queue), lookup-insert i k t queue)

enqueued-found :
    (i t : ℕ) (jobs queue : Dict ℕ)
    → HasKeys jobs
    → lookup i jobs ≡ some t
    → lookup i (enqueued jobs queue) ≡ some t
unfolding lookup
enqueued-found i t [] queue keys h = ground arith
enqueued-found i t ((k, u) ∷ jobs) queue keys h = ground (
  arith,
  enqueued-found i t jobs (insert k u queue) keys.1,
  enqueued-kept i jobs (insert k u queue),
  lookup-insert i k u queue,
)

waiting_jobs-absent :
    (i : ℕ) (jobs : Dict Job) → lookup i jobs ≡ none → lookup i (waiting_jobs jobs) ≡ none
unfolding lookup waiting_jobs
waiting_jobs-absent i [] h = refl
waiting_jobs-absent i ((k, j) ∷ jobs) h = ground (arith, waiting_jobs-absent i jobs)

waiting_jobs-HasKeys : (jobs : Dict Job) → HasKeys jobs → HasKeys (waiting_jobs jobs)
unfolding waiting_jobs
waiting_jobs-HasKeys [] h = tt
waiting_jobs-HasKeys ((k, j) ∷ jobs) h =
    ground (arith, waiting_jobs-absent k jobs, waiting_jobs-HasKeys jobs h.1)

waiting_jobs-found :
    (i t : ℕ) (jobs : Dict Job) (job : Job)
    → lookup i jobs ≡ some job
    → has_deadline_status job.status ≡ true
    → job.delivery_deadline ≡ some t
    → lookup i (waiting_jobs jobs) ≡ some t
unfolding lookup waiting_jobs
waiting_jobs-found i t [] job h live at = ground arith
waiting_jobs-found i t ((k, j) ∷ jobs) job h live at =
    ground (arith, waiting_jobs-found i t jobs job)

-- While Redis answers, and if no key of the table of jobs stands twice: after a start, the queue
-- has the deadline of every funded, started or delivered job with a deadline.
recover_deadlines-waiting :
    (job_id t : ℕ) (s : Session) (job : Job)
    → s.env.redis_up ≡ true
    → HasKeys s.db.jobs
    → lookup job_id s.db.jobs ≡ some job
    → has_deadline_status job.status ≡ true
    → job.delivery_deadline ≡ some t
    → lookup job_id (recover_deadlines s).1.redis.deadlines ≡ some t
unfolding recover_deadlines
recover_deadlines-waiting job_id t s job up keys found live at =
    ap (lookup job_id) (enqueue_all-enqueued (waiting_jobs s.db.jobs) s up)
    ∙ enqueued-found job_id t (waiting_jobs s.db.jobs) s.redis.deadlines
        (waiting_jobs-HasKeys s.db.jobs keys)
        (waiting_jobs-found job_id t s.db.jobs job found live at)
