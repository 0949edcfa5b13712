-- ===== src/Repository/Invariant/Marks.antt =====
-- `mark_succeeded` and `mark_failed_attempt` for the holder of the lease, and for anybody else.
use digitalocean.Base.{
  ℕ, ◌+◌, ◌≡◌, refl, String, Bool, true, false, not, ◌&&◌, ◌||◌, Option, none, some, ◌==◌, is_value,
  if◌then◌else◌, arith, ◌∙◌, sym,
}
use mathlib.Core.Path.{fun_ext}
use digitalocean.Models.{Job, Json, running, is_status}
use digitalocean.Sql.{update, count}
use digitalocean.Sql.Update.{Unique-update}
use digitalocean.Repository.Store.{Db, ok, get_job}
use digitalocean.Repository.Finish.{
  is_held, succeed, succeeded_attempt, failed_attempt, retry_at, fail_attempt, will_retry, bury,
  mark_succeeded, mark_failed_attempt,
}
use digitalocean.Repository.Invariant.{Agrees, IsValid, has_attempt, has_dead_letter}
use digitalocean.Repository.Invariant.Views.{
  get_job-same, get_job-update_ne, has_attempt-same, get_job-id, count-job, jobs-bury,
  has_dead_letter-bury,
}
use digitalocean.Repository.Invariant.Finish.{succeed-Ends, fail_attempt-Ends, commit_attempt}

-- The second test of `is_held`.
abbrev pub holder : ℕ → Job → Bool
holder w j = is_status j.status running && is_value j.locked_by w

count-held :
    (k w : ℕ) (db : Db) {j : Job}
    → IsValid db
    → get_job k db ≡ some j
    → count (is_held k w) db.jobs ≡ (if holder w j then 1 else 0)
count-held k w db v e = count-job k (holder w) db v.keys ∙ rw e

or-false : (b : Bool) → (b || false) ≡ b
or-false true = refl
or-false false = refl

-- The tables after a commit that leaves no dead letter.
pub committed-IsValid :
    (p : Job → Bool) (f : Job → Job) (db db' : Db)
    → ((j : Job) → (f j).id ≡ j.id)
    → IsValid db
    → db'.jobs ≡ update p f db.jobs
    → ((m : ℕ) → Agrees m (get_job m db') (λ n. has_attempt m n db') (has_dead_letter m db'))
    → IsValid db'
committed-IsValid p f db db' same v jobs agrees = record {
  keys = rw jobs (Unique-update (λ j. j.id) p f db.jobs same v.keys);
  agrees = agrees;
}

-- The tables after a commit that may leave one.
pub buried-IsValid :
    (now k next : ℕ) (payload : Json) (error : String) (max_retries : ℕ) (p : Job → Bool)
    (f : Job → Job) (db db' : Db)
    → ((j : Job) → (f j).id ≡ j.id)
    → IsValid db
    → db'.jobs ≡ update p f db.jobs
    → ((m : ℕ)
        → Agrees m
            (get_job m db')
            (λ n. has_attempt m n db')
            (has_dead_letter m db' || (not (will_retry next max_retries) && k == m)))
    → IsValid (bury now k payload error next max_retries db')
buried-IsValid now k next payload error max_retries p f db db' same v jobs agrees =
    let buried = bury now k payload error next max_retries db' in
    let (same_jobs, same_log) = jobs-bury now k next payload error max_retries db' in
    record {
      keys = rw (same_jobs, jobs) (Unique-update (λ j. j.id) p f db.jobs same v.keys);
      agrees = λ m.
          rw
            (
              get_job-same m db' buried same_jobs,
              fun_ext (λ n. has_attempt-same m n db' buried same_log),
              has_dead_letter-bury now k next payload error max_retries db' m,
            )
            (agrees m);
    }

module _ (now k w next started_at : ℕ) (db : Db) (j : Job) (v : IsValid db)
    (e : get_job k db ≡ some j) where
  -- The holder's success is committed, and the tables stay consistent.
  pub mark_succeeded-IsValid :
      (result : Json)
      → holder w j ≡ true
      → next ≡ j.attempt_count + 1
      → let (db', r) = mark_succeeded now k w next started_at result db in
        IsValid db'
        × (r ≡ ok (some (succeed now next result j)))
        × (get_job k db' ≡ some (succeed now next result j))
        × ((m : ℕ) → (k == m) ≡ false → get_job m db' ≡ get_job m db)
  unfolding mark_succeeded
  mark_succeeded-IsValid result h n =
      let f = succeed now next result in
      let (db', inserted, jobs, found, agrees) =
        commit_attempt false (holder w) f (succeeded_attempt now k w next started_at) (λ x. refl) db
          j v e
          (
            rw (get_job-id k db e) (ground arith),
            sym n,
            ground arith,
            succeed-Ends now next result j (ground arith) n,
          ) in
      rw (count-held k w db v e, h, inserted)
        (
          committed-IsValid (is_held k w) f db db' (λ x. refl) v jobs
              (λ m. rw or-false at (agrees m)),
          rw found,
          found,
          λ m other. get_job-update_ne k m (holder w) f db db' (λ x. refl) jobs other,
        )

  -- A failure of the holder is committed: the job goes back to the queue, or its attempts are
  -- used up and it gets its dead letter.
  pub mark_failed_attempt-IsValid :
      (job : Job) (error : String) (is_timeout : Bool) (backoff : ℕ)
      → job.id ≡ k
      → job.max_retries ≡ j.max_retries
      → holder w j ≡ true
      → next ≡ j.attempt_count + 1
      → let (db', r) = mark_failed_attempt now job w next started_at error is_timeout backoff db in
        IsValid db'
        × (r
            ≡ ok (
                some (
                  fail_attempt now next job.max_retries error
                    (retry_at now backoff next job.max_retries)
                    j)))
        × (get_job k db'
            ≡ some (
                fail_attempt now next job.max_retries error
                  (retry_at now backoff next job.max_retries)
                  j))
        × ((m : ℕ) → (k == m) ≡ false → get_job m db' ≡ get_job m db)
  unfolding mark_failed_attempt
  mark_failed_attempt-IsValid job error is_timeout backoff same_id same_max h n =
      let due = retry_at now backoff next job.max_retries in
      let f = fail_attempt now next job.max_retries error due in
      let row = rw (← same_id) at e in
      let (db', inserted, jobs, found, agrees) =
        commit_attempt (not (will_retry next job.max_retries)) (holder w) f
          (failed_attempt now job.id w next started_at error is_timeout) (λ x. refl) db j v row
          (
            rw (get_job-id job.id db row) (ground arith),
            sym n,
            ground arith,
            fail_attempt-Ends now next job.max_retries due error j (ground arith) n same_max,
          ) in
      let buried = bury now job.id job.payload error next job.max_retries in
      let kept = (jobs-bury now job.id next job.payload error job.max_retries db').0 in
      rw (count-held job.id w db v row, h, inserted)
        (
          buried-IsValid now job.id next job.payload error job.max_retries (is_held job.id w) f db
              db' (λ x. refl) v jobs agrees,
          rw (get_job-same job.id db' (buried db') kept) (rw found),
          rw (← same_id) (get_job-same job.id db' (buried db') kept ∙ found),
          λ m other.
              get_job-same m db' (buried db') kept
              ∙ get_job-update_ne job.id m (holder w) f db db' (λ x. refl) jobs (rw same_id other),
        )

-- Whether a worker holds the lease of the job that a lookup found.
abbrev pub holds : ℕ → Option Job → Bool
holds w none = false
holds w (some j) = holder w j

count-not_held :
    (k w : ℕ) (db : Db) (o : Option Job)
    → IsValid db
    → get_job k db ≡ o
    → holds w o ≡ false
    → count (is_held k w) db.jobs ≡ 0
count-not_held k w db none v e h = count-job k (holder w) db v.keys ∙ rw e
count-not_held k w db (some j) v e h = count-held k w db v e ∙ rw h

module _ (now k w next started_at : ℕ) (db : Db) (v : IsValid db)
    (h : holds w (get_job k db) ≡ false) where
  -- Whoever does not hold the lease changes nothing, and is told the current row.
  pub mark_succeeded-fenced :
      (result : Json) → mark_succeeded now k w next started_at result db ≡ (db, ok (get_job k db))
  unfolding mark_succeeded
  mark_succeeded-fenced result = rw (count-not_held k w db (get_job k db) v refl h)

  pub mark_failed_attempt-fenced :
      (job : Job) (error : String) (is_timeout : Bool) (backoff : ℕ)
      → job.id ≡ k
      → mark_failed_attempt now job w next started_at error is_timeout backoff db
        ≡ (db, ok (get_job k db))
  unfolding mark_failed_attempt
  mark_failed_attempt-fenced job error is_timeout backoff same_id =
      rw (same_id, count-not_held k w db (get_job k db) v refl h)
