-- ===== src/Tests/Queue.antt =====
-- The queue's transactions on the sample tables.
use digitalocean.Base.{arith, ◌+◌, ◌-◌, ◌≡◌, refl, none, some, [], ◌∷◌, ◌++◌, pos}
use digitalocean.Models.{end, obj, JobCreate}
use digitalocean.Repository.Store.{
  Db, ok, raise, idempotency_conflict, integrity_error, get_job, get_job_by_idempotency_key,
  insert_job,
}
use digitalocean.Repository.Claim.{is_due, claim_next_job}
use digitalocean.Repository.Claim.Order.{Claims, claim_next_job_lem}
use digitalocean.Repository.Depth.{is_scheduled, queue_depth}
use digitalocean.Repository.Depth.{oldest_queued_age_seconds}
use digitalocean.Repository.Depth.Age.{IsOldestAge, oldest_queued_age_seconds_lem}
use digitalocean.Repository.Registry.{heartbeat_worker, worker_runtime_status, totals}
use digitalocean.Repository.Registry.Fresh.{others, heartbeat_worker-status}
use digitalocean.Sql.Update.{Unique}
use digitalocean.Repository.Depth.Partition.{queue_depth_lem}
use digitalocean.Sql.{count}
use digitalocean.Repository.Create.{Digest, new_row, submit, create_job}
use digitalocean.Repository.Create.Idempotency.{create_job_idempotent}
use digitalocean.Repository.Create.EmptyKey.{create_job-empty_key}
use digitalocean.Repository.Recover.{recover_stale_jobs}
use digitalocean.Repository.Invariant.{IsValid}
use digitalocean.Repository.Invariant.Create.{create_job-IsValid}
use digitalocean.Repository.Invariant.Reap.{Recovers, recover_stale_jobs_lem}
use digitalocean.Tests.Samples.{sample_db, sample_db-IsValid}

-- At time 10 job 1 is due and job 2 is not.
claim_next_job_lem_example : Claims 10 9 sample_db (claim_next_job 10 9 sample_db)
claim_next_job_lem_example = claim_next_job_lem 10 9 sample_db sample_db-IsValid

-- At time 100 the lease of job 3 has expired.
recover_stale_jobs_lem_example : Recovers 100 15 sample_db (recover_stale_jobs 100 15 sample_db)
recover_stale_jobs_lem_example = recover_stale_jobs_lem 100 15 sample_db sample_db-IsValid

-- A digest that tells requests apart by their timeout.
abbrev pub digest : Digest
digest (request, max_retries, timeout) = timeout

abbrev pub request : JobCreate
request = record {
  payload = obj end;
  priority = pos 0;
  max_retries = none;
  timeout_seconds = none;
  run_at = none;
}

abbrev keyed_db : Db
keyed_db = record sample_db {
  jobs = sample_db.jobs ++ new_row 10 4 (some 77) (some 5) request 3 5 ∷ [];
}

submitted :
    create_job digest (λ db. db) (λ db. db) 10 4 request 3 5 (some 77) sample_db
    ≡ (keyed_db, ok (some (new_row 10 4 (some 77) (some 5) request 3 5)))
unfolding create_job submit insert_job get_job get_job_by_idempotency_key
submitted = refl

-- The key 77 again: with the same timeout the first job is told, with another it is a conflict.
create_job_idempotent_example :
    create_job digest (λ db. db) (λ db. db) 20 5 request 3 6 (some 77) keyed_db
    ≡ (keyed_db, raise idempotency_conflict)
create_job_idempotent_example =
    create_job_idempotent digest 77 refl (λ db. db) (λ db. db) (λ db. db) 10 20 4 5 request request
      3 3 5 6 sample_db keyed_db (new_row 10 4 (some 77) (some 5) request 3 5) submitted

submission-IsValid :
    IsValid (create_job digest (λ db. db) (λ db. db) 10 4 request 3 5 (some 77) sample_db).0
submission-IsValid =
    create_job-IsValid digest (λ db. db) (λ db. db) 10 4 request 3 5 (some 77) sample_db (λ db v. v)
      (λ db v. v) sample_db-IsValid

-- At time 10 one job of the sample is due, one is scheduled and one is running.
queue_depth_lem_example :
    let d = queue_depth 10 (λ x. x) sample_db in
    (d.total ≡ d.queued + d.running + d.succeeded + d.failed + d.dead_lettered + d.cancelled)
    × (d.queued ≡ d.due_queued + d.scheduled_queued)
    × (d.due_queued ≡ count (is_due 10) sample_db.jobs)
    × (d.scheduled_queued ≡ count (is_scheduled 10) sample_db.jobs)
queue_depth_lem_example = queue_depth_lem 10 sample_db

oldest_queued_age_seconds_lem_example :
    IsOldestAge 10 12 sample_db (oldest_queued_age_seconds 10 12 sample_db)
oldest_queued_age_seconds_lem_example =
    oldest_queued_age_seconds_lem 10 12 sample_db sample_db-IsValid

abbrev registered_db : Db
registered_db = record sample_db {
  worker_instances =
      record { instance_id = 1; active_threads = 4; busy_threads = 2; last_seen_at = 5 }
      ∷ record { instance_id = 2; active_threads = 8; busy_threads = 0; last_seen_at = 90 }
      ∷ [];
}

-- Instance 1 reports at time 95, and the status is read at time 100.
heartbeat_worker-status_example :
    let db' = heartbeat_worker 95 1 3 1 registered_db in
    let s = worker_runtime_status 100 10 db' in
    let rest = totals (others (100 - 10) 1 registered_db.worker_instances) in
    (s.instances ≡ 1 + rest.instances)
    × (s.active_threads ≡ 3 + rest.active_threads)
    × (s.busy_threads ≡ 1 + rest.busy_threads)
    × Unique (λ i. i.instance_id) db'.worker_instances
heartbeat_worker-status_example =
    heartbeat_worker-status 95 100 10 1 3 1 registered_db (refl, (refl, tt)) (omega arith)

-- The empty key is taken by job 4.
abbrev empty_key_db : Db
empty_key_db = record sample_db {
  jobs = sample_db.jobs ++ new_row 10 4 (some 0) (some 5) request 3 5 ∷ [];
}

taken :
    get_job_by_idempotency_key 0 empty_key_db ≡ some (new_row 10 4 (some 0) (some 5) request 3 5)
unfolding get_job_by_idempotency_key
taken = refl

create_job-empty_key_example :
    create_job digest (λ db. db) (λ db. db) 20 5 request 3 5 (some 0) empty_key_db
    ≡ (empty_key_db, raise integrity_error)
create_job-empty_key_example =
    create_job-empty_key digest (λ db. db) (λ db. db) 20 5 request 3 5 empty_key_db
      (new_row 10 4 (some 0) (some 5) request 3 5) taken
