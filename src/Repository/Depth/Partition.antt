-- ===== src/Repository/Depth/Partition.antt =====
-- The numbers of `queue_depth` against the table.
use digitalocean.Base.{ℕ, ◌+◌, ◌≡◌, refl, List, [], ◌∷◌, length, arith, if◌then◌else◌}
use digitalocean.Models.{
  Job, JobStatus, queued, running, succeeded, failed, dead_lettered, cancelled, is_status,
}
use digitalocean.Sql.{count}
use digitalocean.Repository.Store.{Db}
use digitalocean.Repository.Claim.{is_due}
use digitalocean.Repository.Depth.{counts, is_scheduled, queue_depth}

-- 1 for the status that a job has, and 0 for the others.
abbrev one_if : JobStatus → JobStatus → ℕ
one_if s t = if is_status s t then 1 else 0

one_status :
    (s : JobStatus)
    → one_if s queued
        + one_if s running
        + one_if s succeeded
        + one_if s failed
        + one_if s dead_lettered
        + one_if s cancelled
      ≡ 1
one_status queued = refl
one_status running = refl
one_status succeeded = refl
one_status failed = refl
one_status dead_lettered = refl
one_status cancelled = refl

-- Every job has one of the six statuses.
length-counts :
    (jobs : List Job)
    → length jobs
      ≡ counts queued jobs
        + counts running jobs
        + counts succeeded jobs
        + counts failed jobs
        + counts dead_lettered jobs
        + counts cancelled jobs
length-counts [] = refl
length-counts (j ∷ jobs) =
    let one = one_status j.status in let rest = length-counts jobs in omega arith

-- A queued job is due or scheduled.
counts-due :
    (now : ℕ) (jobs : List Job)
    → counts queued jobs ≡ count (is_due now) jobs + count (is_scheduled now) jobs
counts-due now [] = refl
counts-due now (j ∷ jobs) = ground (arith, counts-due now jobs)

-- When no other connection commits between the two queries, `queue_depth` counts every job under
-- exactly one status: total is the sum of the six numbers, queued is the sum of due_queued and
-- scheduled_queued, and these two are the numbers of the queued jobs that are due and of those
-- whose run_at lies in the future.
pub queue_depth_lem :
    (now : ℕ) (db : Db)
    → let d = queue_depth now (λ x. x) db in
      (d.total ≡ d.queued + d.running + d.succeeded + d.failed + d.dead_lettered + d.cancelled)
      × (d.queued ≡ d.due_queued + d.scheduled_queued)
      × (d.due_queued ≡ count (is_due now) db.jobs)
      × (d.scheduled_queued ≡ count (is_scheduled now) db.jobs)
unfolding queue_depth
queue_depth_lem now db =
    let split = counts-due now db.jobs in (length-counts db.jobs, omega arith, refl, omega arith)
