-- ===== src/Postgres/Round.antt =====
-- A whole round of a worker thread over PostgreSQL: `process_one` of app/worker.py.
use digitalocean.Base.{
  ℕ, ◌+◌, ◌≡◌, refl, String, Bool, true, false, Option, none, some, ap, sym, subst, ◌∙◌,
}
use digitalocean.Models.{Job, RuntimeConfig}
use digitalocean.Repository.Store.{Db, Exception, Result, get_job}
use digitalocean.Repository.Claim as SqliteClaim
use digitalocean.Repository.Invariant.{IsValid}
use digitalocean.Repository.Invariant.Quiet.{claim_next_job-IsValid}
use digitalocean.Repository.Invariant.Marks.{holder}
use digitalocean.Worker as Sqlite
use digitalocean.Worker.{Outcome}
use digitalocean.System.Round.{Rounds, process_one_lem}
use digitalocean.Postgres.Claim.{claim_next_job}
use digitalocean.Postgres.Claim.Agree.{claim_next_job-agrees}
use digitalocean.Postgres.System.{finish_attempt}
use digitalocean.Postgres.System.Attempt.{finish_attempt-agrees}

abbrev pub finish_claimed :
    (Exception → String)
    → RuntimeConfig
    → (handler : Job → ℕ → Outcome) → (others : Db → Db) → (started_at now worker_id : ℕ)
    → Db × Option Job
    → Db × Option (Result (Option Job))
finish_claimed text config handler others started_at now worker_id (db, none) = (db, none)
finish_claimed text config handler others started_at now worker_id (db, some job) =
    let attempt_no = job.attempt_count + 1 in
    let (db', r) =
      finish_attempt text config now job worker_id attempt_no started_at (handler job attempt_no)
        (others db) in
    (db', some r)

unfoldable pub process_one :
    (Exception → String)
    → RuntimeConfig
    → (handler : Job → ℕ → Outcome) → (others : Db → Db) → (locked : ℕ → Bool)
    → (claimed_at started_at now worker_id : ℕ) → Db
    → Db × Option (Result (Option Job))
process_one text config handler others locked claimed_at started_at now worker_id db =
    finish_claimed text config handler others started_at now worker_id
      (claim_next_job locked claimed_at worker_id db)

module _ (text : Exception → String) (config : RuntimeConfig) (handler : Job → ℕ → Outcome)
    (others : Db → Db) (claimed_at started_at now w : ℕ)
    (keeps : (d : Db) → IsValid d → IsValid (others d)) where
  finish_claimed-agrees :
      (r : Db × Option Job)
      → IsValid r.0
      → finish_claimed text config handler others started_at now w r
        ≡ Sqlite.finish_claimed text config handler others started_at now w r
  finish_claimed-agrees (db, none) v = refl
  finish_claimed-agrees (db, some job) v =
      let attempt_no = job.attempt_count + 1 in
      ap (λ (x : Db × Result (Option Job)). (x.0, some x.1))
        (finish_attempt-agrees text config now job w attempt_no started_at (handler job attempt_no)
          (others db) (keeps db v))

  -- When no other transaction holds a row, a round on PostgreSQL is one on SQLite.
  pub process_one-agrees :
      (db : Db)
      → IsValid db
      → process_one text config handler others (λ k. false) claimed_at started_at now w db
        ≡ Sqlite.process_one text config handler others claimed_at started_at now w db
  unfolding process_one Sqlite.process_one
  process_one-agrees db v =
      ap (finish_claimed text config handler others started_at now w)
        (claim_next_job-agrees claimed_at w db v)
      ∙ finish_claimed-agrees (SqliteClaim.claim_next_job claimed_at w db)
          (claim_next_job-IsValid claimed_at w db v)

  -- It claims and ends a job as the specification of a round says.
  pub process_one-Rounds :
      (db : Db)
      → IsValid db
      → ((d : Db) (k : ℕ) (j : Job)
          → get_job k d ≡ some j
          → holder w j ≡ true
          → get_job k (others d) ≡ some j)
      → Rounds config handler claimed_at now w db
          (process_one text config handler others (λ k. false) claimed_at started_at now w db)
  process_one-Rounds db v leaves =
      subst (Rounds config handler claimed_at now w db) (sym (process_one-agrees db v))
        (process_one_lem text config handler others claimed_at started_at now w db v keeps leaves)
