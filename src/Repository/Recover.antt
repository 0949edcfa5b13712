-- ===== src/Repository/Recover.antt =====
-- `recover_stale_jobs` of app/repository.py: leases that outlived the job's timeout and a grace.
use mathlib.Core.Option
use digitalocean.Base.{
  ℕ, ◌+◌, String, Bool, false, ◌&&◌, Option, none, some, List, [], ◌∷◌, ◌==◌, ltb, is_same, is_some,
  or_else, if◌then◌else◌,
}
use digitalocean.Models.{Job, Attempt, running, abandoned, is_status}
use digitalocean.Sql.{select, update, count}
use digitalocean.Repository.Store.{Db, Result, ok, raise, integrity_error, insert_attempt}
use digitalocean.Repository.Finish.{fail_attempt, bury}

-- `WHERE status = 'running' AND locked_at IS NOT NULL`
abbrev pub is_leased : Job → Bool
is_leased j = is_status j.status running && is_some j.locked_at

-- The negation of the test that skips a row in the loop.
abbrev pub is_expired : (now lease_grace : ℕ) → Job → Bool
is_expired now grace row = elim row.locked_at [
  | none ↦ false
  | some locked_at ↦ ltb (locked_at + (row.timeout_seconds + grace)) now
]

abbrev pub lease_error : String
lease_error = "worker lease expired before the attempt was committed"

-- `WHERE id = ? AND status = 'running' AND locked_by = ? AND locked_at = ?`
abbrev pub is_same_lease : Job → Job → Bool
is_same_lease row j =
    j.id == row.id
    && (is_status j.status running
        && (is_same j.locked_by row.locked_by && is_same j.locked_at row.locked_at))

-- The attempt of a row that is leased: the defaults for a NULL `locked_by` and `locked_at` are
-- not used.
abbrev pub abandoned_attempt : ℕ → Job → Attempt
abandoned_attempt now row = record {
  job_id = row.id;
  attempt_no = row.attempt_count + 1;
  worker_id = or_else row.locked_by 0;
  status = abandoned;
  started_at = or_else row.locked_at 0;
  finished_at = now;
  error = some lease_error;
}

-- The body of the loop for an expired row; the number says whether the row was recovered.
unfoldable pub recover_row : ℕ → Job → Db → Option (Db × ℕ)
recover_row now row db =
    let attempt_no = row.attempt_count + 1 in
    let requeued = fail_attempt now attempt_no row.max_retries lease_error now in
    if count (is_same_lease row) db.jobs == 0
    then some (db, 0)
    else Option.map
        (λ db'. (bury now row.id row.payload lease_error attempt_no row.max_retries db', 1))
        (insert_attempt (abandoned_attempt now row)
          (record db { jobs = update (is_same_lease row) requeued db.jobs }))

abbrev pub visit_row : ℕ → ℕ → Job → Db → Option (Db × ℕ)
visit_row now grace row db =
    if is_expired now grace row then recover_row now row db else some (db, 0)

-- The loop. An exception leaves the transaction, which is what `none` stands for.
unfoldable pub recover_rows : (now lease_grace : ℕ) → List Job → Db → ℕ → Option (Db × ℕ)
recover_rows now grace [] db recovered = some (db, recovered)
recover_rows now grace (row ∷ rows) db recovered = elim (visit_row now grace row db) [
  | none ↦ none
  | some (db', one) ↦ recover_rows now grace rows db' (recovered + one)
]

abbrev pub recovered_or_raise : Db → Option (Db × ℕ) → Db × Result ℕ
recovered_or_raise db none = (db, raise integrity_error)
recovered_or_raise db (some (db', recovered)) = (db', ok recovered)

unfoldable pub recover_stale_jobs : (now lease_grace : ℕ) → Db → Db × Result ℕ
recover_stale_jobs now grace db =
    recovered_or_raise db (recover_rows now grace (select is_leased db.jobs) db 0)
