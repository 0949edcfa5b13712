-- ===== src/Tests/Http.antt =====
-- Requests to the API on the sample tables.
use digitalocean.Base.{◌≡◌, ◌≤◌, refl, none, some, [], ◌∷◌, ◌++◌}
use digitalocean.Models.{queued}
use digitalocean.Repository.Store.{Db, get_job, insert_job}
use digitalocean.Repository.Create.{create_job}
use digitalocean.Worker.Pool.{reconcile}
use digitalocean.Settings.Boot.{running_pool}
use digitalocean.Api.{reply, job_created, post_job, read_config, update_config}
use digitalocean.Api.Limits.{
  accepted_row, post_job_lem, post_job-patched, update_config-read_config,
}
use digitalocean.Tests.Samples.{sample_db, empty_db}
use digitalocean.Tests.Queue.{digest, request}
use digitalocean.Tests.Settings.{defaults, defaults_valid, patch, patch_valid, patched, merge}

abbrev accepted_db : Db
accepted_db = record sample_db {
  jobs = sample_db.jobs ++ accepted_row digest 10 4 request defaults ∷ [];
}

accepted : insert_job (accepted_row digest 10 4 request defaults) sample_db ≡ some accepted_db
unfolding insert_job
accepted = refl

post_job_lem_example :
    (post_job digest (λ db. db) (λ db. db) 10 4 request none defaults sample_db
      ≡ (accepted_db, reply 202 (4, queued)))
    × (get_job 4 accepted_db ≡ some (accepted_row digest 10 4 request defaults))
    × (3 ≤ 20)
    × (1 ≤ 5000000)
post_job_lem_example =
    post_job_lem digest 10 4 request defaults sample_db accepted_db defaults_valid refl accepted

-- The default timeout was lowered with the maximal one.
patched_submission :
    post_job digest (λ db. db) (λ db. db) 10 4 request (some 77) patched sample_db
    ≡ job_created
        (create_job digest (λ db. db) (λ db. db) 10 4 request 3 2000000 (some 77) sample_db)
patched_submission =
    post_job-patched digest (λ db. db) (λ db. db) 10 4 request (some 77) defaults patched patch
      sample_db merge refl refl

abbrev configured_db : Db
configured_db = record empty_db { runtime_config = some defaults }

update_config-read_config_example :
    let updated = update_config patch (running_pool defaults) configured_db in
    (updated.1 ≡ reply 200 patched)
    × (updated.0.1 ≡ reconcile (record (running_pool defaults) { config = patched }))
    × (updated.0.1.config ≡ patched)
    × (read_config defaults updated.0.0 ≡ (patched, reply 200 patched))
update_config-read_config_example =
    update_config-read_config patch (running_pool defaults) defaults defaults configured_db refl
      defaults_valid patch_valid
