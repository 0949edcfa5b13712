-- ===== src/System/Asides.antt =====
-- The transactions that write no job, and the tables of the queue.
use digitalocean.Base.{ℕ, ◌≡◌, refl, Bool, Option-cases, inl, inr}
use digitalocean.Repository.Store.{Db, get_job}
use digitalocean.Repository.Registry.{heartbeat_worker}
use digitalocean.Repository.Schedules.{
  Cron, create_schedule, insert_schedule, get_schedule, write_enabled, delete_schedule,
}
use digitalocean.Repository.Invariant.{IsValid, has_attempt, has_dead_letter}
use digitalocean.Config.{patch_runtime_config, merge_runtime_config, initialize_runtime_config}
use digitalocean.System.{Aside, add_schedule, remove_schedule, patch_config, boot, heartbeat}
use digitalocean.System.Steps.{IsGood, Entered-IsGood}

-- The three tables of the queue.
pub record IsQuiet (db db' : Db) : Type 0 where
  pub jobs : db'.jobs ≡ db.jobs
  pub job_attempts : db'.job_attempts ≡ db.job_attempts
  pub dead_letters : db'.dead_letters ≡ db.dead_letters

pub IsQuiet-get_job : (db db' : Db) → IsQuiet db db' → (k : ℕ) → get_job k db' ≡ get_job k db
unfolding get_job
IsQuiet-get_job db db' q k = rw q.jobs refl

IsQuiet-IsValid : (db db' : Db) → IsQuiet db db' → IsValid db → IsValid db'
unfolding get_job has_attempt has_dead_letter
IsQuiet-IsValid db db' q v = record {
  keys = rw q.jobs v.keys;
  agrees = λ k. rw (q.jobs, q.job_attempts, q.dead_letters) (v.agrees k);
}

pub IsQuiet-IsGood : (db db' : Db) → IsQuiet db db' → IsValid db → IsGood db db'
IsQuiet-IsGood db db' q v =
    Entered-IsGood db db' (IsQuiet-IsValid db db' q v) (λ k. inl (IsQuiet-get_job db db' q k))

pub write_enabled-IsQuiet :
    (now k next_run_at : ℕ) (enabled : Bool) (db : Db)
    → IsQuiet db (write_enabled now k next_run_at enabled db).0
unfolding write_enabled
write_enabled-IsQuiet now k next_run_at enabled db = record {
  jobs = refl;
  job_attempts = refl;
  dead_letters = refl;
}

pub Aside-IsQuiet : (cron : Cron) {db db' : Db} → Aside cron db db' → IsQuiet db db'
unfolding create_schedule insert_schedule delete_schedule patch_runtime_config
    initialize_runtime_config heartbeat_worker
Aside-IsQuiet cron (add_schedule db now k request max_retries timeout) =
    elim (Option-cases (cron request.cron_expression now)) [
      | inl bad ↦
          rw (bad, create_schedule)
            (record { jobs = refl; job_attempts = refl; dead_letters = refl })
      | inr (next_run_at, good) ↦ elim (Option-cases (get_schedule k db)) [
        | inl free ↦
            rw (create_schedule, good)
              (rw (insert_schedule, free)
                (record { jobs = refl; job_attempts = refl; dead_letters = refl }))
        | inr (s, there) ↦
            rw (create_schedule, good)
              (rw (insert_schedule, there)
                (record { jobs = refl; job_attempts = refl; dead_letters = refl }))
      ]
    ]
Aside-IsQuiet cron (remove_schedule db k) = record {
  jobs = refl;
  job_attempts = refl;
  dead_letters = refl;
}
Aside-IsQuiet cron (patch_config db patch) = elim (Option-cases db.runtime_config) [
  | inl gone ↦ rw gone (record { jobs = refl; job_attempts = refl; dead_letters = refl })
  | inr (current, there) ↦ elim (Option-cases (merge_runtime_config current patch)) [
    | inl bad ↦ rw there (rw bad (record { jobs = refl; job_attempts = refl; dead_letters = refl }))
    | inr (updated, good) ↦
        rw there (rw good (record { jobs = refl; job_attempts = refl; dead_letters = refl }))
  ]
]
Aside-IsQuiet cron (boot db default) = record {
  jobs = refl;
  job_attempts = refl;
  dead_letters = refl;
}
Aside-IsQuiet cron (heartbeat db now i n m) = record {
  jobs = refl;
  job_attempts = refl;
  dead_letters = refl;
}
