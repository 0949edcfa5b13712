-- ===== src/Postgres/Recover/Skips.antt =====
-- Which leases the reaper of PostgreSQL ends while other transactions hold rows.
use mathlib.Core.Option
use digitalocean.Base.{
  ℕ, ◌+◌, ◌≡◌, refl, Bool, false, ◌&&◌, Option, none, some, List, [], ◌∷◌, if◌then◌else◌, arith,
  Bool-cases, inl, inr, ◌∙◌,
}
use digitalocean.Models.{Job}
use digitalocean.Sql.{select, update}
use digitalocean.Sql.Update.{Unique}
use digitalocean.Sql.Select.{Current, Current-weaken, Current-select, Unique-select, find-select}
use digitalocean.Repository.Store.{Db, Result, ok, get_job, insert_attempt}
use digitalocean.Repository.Finish as Sqlite
use digitalocean.Repository.Finish.{fail_attempt}
use digitalocean.Repository.Recover as SqliteLoop
use digitalocean.Repository.Recover.{
  is_leased, is_expired, is_same_lease, abandoned_attempt, lease_error,
}
use digitalocean.Repository.Invariant.{IsValid, has_dead_letter}
use digitalocean.Repository.Invariant.Views.{has_dead_letter-same}
use digitalocean.Repository.Invariant.Recover.{abandon, recover_row_lem}
use digitalocean.Repository.Invariant.Reap.{expired, visited, fresh_ne, recover_rows_lem}
use digitalocean.Postgres.Finish.{bury}
use digitalocean.Postgres.Finish.Agree.{
  bury-agrees, insert_attempt-others, running-alive, map-agrees,
}
use digitalocean.Postgres.Recover.{is_seen, recover_row, recover_rows, recover_stale_jobs}

-- A job that has no dead letter is recovered as SQLite recovers it.
recover_row-agrees :
    (now : ℕ) (row : Job) (db : Db)
    → has_dead_letter row.id db ≡ false
    → recover_row now row db ≡ SqliteLoop.recover_row now row db
unfolding recover_row SqliteLoop.recover_row
recover_row-agrees now row db alive =
    let next = row.attempt_count + 1 in
    let mid = record db {
      jobs =
          update (is_same_lease row) (fail_attempt now next row.max_retries lease_error now)
            db.jobs;
    } in
    let same =
      map-agrees {A = Db × ℕ}
        (λ d. (bury now row.id row.payload lease_error next row.max_retries d, 1))
        (λ d. (Sqlite.bury now row.id row.payload lease_error next row.max_retries d, 1))
        (insert_attempt (abandoned_attempt now row) mid)
        (λ d inserted.
          rw
            (bury-agrees now row.id row.payload lease_error next row.max_retries d (
              has_dead_letter-same row.id db d
                (insert_attempt-others (abandoned_attempt now row) mid d inserted).1
              ∙ alive))
            refl) in
    rw same refl

module _ (now grace : ℕ) where
  recover_rows-agrees :
      (rows : List Job) (db : Db) (n : ℕ)
      → IsValid db
      → Unique (λ j. j.id) rows
      → Current (λ j. j.id) is_leased (λ k. get_job k db) rows
      → recover_rows now grace rows db n ≡ SqliteLoop.recover_rows now grace rows db n
  unfolding recover_rows SqliteLoop.recover_rows
  recover_rows-agrees [] db n v u c = refl
  recover_rows-agrees (row ∷ rows) db n v u (e, leased, c) =
      elim (Bool-cases (is_expired now grace row)) [
        | inl expires ↦
            let alive = running-alive row.id db row v e (ground arith) in
            let (db1, step, v1, mine, others) = recover_row_lem now row db v e leased in
            let c1 =
              Current-weaken (λ j. j.id) is_leased (λ k. get_job k db) (λ k. get_job k db1) rows
                (λ k h. others k (fresh_ne k row.id rows u.0 h)) c in
            rw (expires, recover_rows, SqliteLoop.recover_rows, recover_row-agrees now row db alive)
              (rw (step, recover_rows, SqliteLoop.recover_rows)
                (recover_rows-agrees rows db1 (n + 1) v1 u.1 c1))
        | inr fresh ↦
            rw (fresh, recover_rows, SqliteLoop.recover_rows)
              (recover_rows-agrees rows db (n + 0) v u.1 c)
      ]

-- A row that is locked is not selected, and any other row is as SQLite selects it.
Current-seen :
    (locked : ℕ → Bool) (row : ℕ → Option Job) (rows : List Job)
    → Current (λ j. j.id) (is_seen locked) row rows
    → Current (λ j. j.id) is_leased row rows
Current-seen locked row [] c = tt
Current-seen locked row (r ∷ rows) (e, seen, c) = (e, ground arith, Current-seen locked row rows c)

-- What the reaper makes of a row: an expired lease that no other transaction holds is abandoned.
abbrev pub free_row : (locked : ℕ → Bool) → (now lease_grace : ℕ) → Job → Job
free_row locked now grace j =
    if is_seen locked j && is_expired now grace j then abandon now j else j

free-visited :
    (locked : ℕ → Bool) (now grace k : ℕ) (db : Db)
    → Unique (λ j. j.id) db.jobs
    → (o : Option Job) → get_job k db ≡ o
    → Option.map (visited now grace (select (is_seen locked) db.jobs) k) o
      ≡ Option.map (free_row locked now grace) o
unfolding get_job
free-visited locked now grace k db u none e = refl
free-visited locked now grace k db u (some j) e =
    rw (find-select (λ x. x.id) (is_seen locked) k db.jobs u e)

abbrev pub FreeRecovers : (locked : ℕ → Bool) → (now lease_grace : ℕ) → Db → Db × Result ℕ → Type 0
FreeRecovers locked now grace db (db', r) =
    (r ≡ ok (expired now grace (select (is_seen locked) db.jobs)))
    × IsValid db'
    × ((k : ℕ) → get_job k db' ≡ Option.map (free_row locked now grace) (get_job k db))

module _ (locked : ℕ → Bool) (now grace : ℕ) (db : Db) (v : IsValid db) where
  seen : Current (λ j. j.id) is_leased (λ k. get_job k db) (select (is_seen locked) db.jobs)
  unfolding get_job
  seen =
      Current-seen locked (λ k. get_job k db) (select (is_seen locked) db.jobs)
        (Current-select (λ j. j.id) (is_seen locked) db.jobs v.keys)

  -- On consistent tables the reaper of the PostgreSQL repository raises nothing, answers the number
  -- of expired leases whose rows no other transaction holds, leaves the tables consistent, and
  -- abandons exactly those; every other job keeps its row.
  pub reap_skips_locked : FreeRecovers locked now grace db (recover_stale_jobs locked now grace db)
  unfolding recover_stale_jobs
  reap_skips_locked =
      let rows = select (is_seen locked) db.jobs in
      let u = Unique-select (λ j. j.id) (is_seen locked) db.jobs v.keys in
      let (db', ran, v', all) = recover_rows_lem now grace rows db 0 v u seen in
      rw (recover_rows-agrees now grace rows db 0 v u seen, ran, recover_stale_jobs)
        (
          ground arith,
          v',
          λ k. all k ∙ free-visited locked now grace k db v.keys (get_job k db) refl,
        )

select-seen : (jobs : List Job) → select (is_seen (λ k. false)) jobs ≡ select is_leased jobs
select-seen [] = refl
select-seen (j ∷ jobs) = ground (arith, select-seen jobs)

pub recover_stale_jobs-agrees :
    (now grace : ℕ) (db : Db)
    → IsValid db
    → recover_stale_jobs (λ k. false) now grace db ≡ SqliteLoop.recover_stale_jobs now grace db
unfolding recover_stale_jobs SqliteLoop.recover_stale_jobs get_job
recover_stale_jobs-agrees now grace db v =
    let u = Unique-select (λ j. j.id) is_leased db.jobs v.keys in
    let c = Current-select (λ j. j.id) is_leased db.jobs v.keys in
    rw (select-seen db.jobs)
      (rw (recover_rows-agrees now grace (select is_leased db.jobs) db 0 v u c) refl)
