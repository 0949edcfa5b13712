-- ===== src/Repository/Cancel.antt =====
-- `cancel_job` and `drain_queue` of app/repository.py.
use digitalocean.Base.{ℕ, ◌&&◌, Option, some, ◌==◌}
use digitalocean.Models.{Job, queued, cancelled, is_status}
use digitalocean.Sql.{update, count}
use digitalocean.Repository.Store.{Db, get_job}

abbrev pub cancel : ℕ → Job → Job
cancel now j = record j { status = cancelled; updated_at = now; finished_at = some now }

unfoldable pub cancel_job : (now job_id : ℕ) → Db → Db × Option Job
cancel_job now job_id db =
    let db' = record db {
      jobs = update (λ j. j.id == job_id && is_status j.status queued) (cancel now) db.jobs;
    } in
    (db', get_job job_id db')

unfoldable pub drain_queue : ℕ → Db → Db × ℕ
drain_queue now db = (
  record db { jobs = update (λ j. is_status j.status queued) (cancel now) db.jobs },
  count (λ j. is_status j.status queued) db.jobs,
)
