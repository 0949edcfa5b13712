-- ===== src/Repository/Invariant/Finish.antt =====
-- The end of an attempt. The holder of a lease commits exactly one attempt of the next number.
use mathlib.Core.Option
use digitalocean.Base.{
  ℕ, ◌+◌, ◌≡◌, String, Bool, true, false, not, ◌&&◌, ◌||◌, Option, none, some, ◌==◌, if◌then◌else◌,
  arith, Bool-cases, inl, inr, subst, ◌∙◌,
}
use mathlib.Core.Path.{fun_ext}
use native.Mathlib.Decide.{ℕ_discrete}
use digitalocean.Models.{Job, Attempt, Json, running, dead_lettered, is_status}
use digitalocean.Sql.{update, count}
use digitalocean.Repository.Store.{Db, get_job, insert_attempt}
use digitalocean.Repository.Finish.{succeed, fail_attempt, will_retry}
use digitalocean.Repository.Invariant.{IsRow, Agrees, IsValid, has_attempt, has_dead_letter}
use digitalocean.Repository.Invariant.Views.{
  get_job-update, get_job-same, has_dead_letter-same, insert_attempt_new,
}

-- The row of a job whose attempt `attempt_no` has just been committed by `f`.
abbrev pub Ends : ℕ → Bool → (Job → Job) → Job → Type 0
Ends attempt_no dies f j =
    IsRow j
    → IsRow (f j)
      × ((f j).attempt_count ≡ attempt_no)
      × (is_status (f j).status dead_lettered ≡ dies)

pub succeed-Ends :
    (now next : ℕ) (result : Json) (j : Job)
    → is_status j.status running ≡ true
    → next ≡ j.attempt_count + 1
    → Ends next false (succeed now next result) j
succeed-Ends now next result j r n row = ground arith

pub fail_attempt-Ends :
    (now next max_retries next_run_at : ℕ) (error : String) (j : Job)
    → is_status j.status running ≡ true
    → next ≡ j.attempt_count + 1
    → max_retries ≡ j.max_retries
    → Ends next
        (not (will_retry next max_retries))
        (fail_attempt now next max_retries error next_run_at)
        j
fail_attempt-Ends now next max_retries next_run_at error j r n m row = ground arith

-- One job's view before and after the commit of attempt `next` of job k, in a table where the
-- update p f meets job k alone.
module _ (k next : ℕ) (dies : Bool) (p : Job → Bool) (f : Job → Job)
    (same : (j : Job) → (f j).id ≡ j.id) where
  abbrev Committed : ℕ → Option Job → (ℕ → Bool) → Bool → Type 0
  Committed m o log dead =
      Agrees m (Option.map (λ j. if p j then f j else j) o) (λ n. log n || (k == m && next == n))
        (dead || (dies && k == m))

  abbrev Commits : Job → Type 0
  Commits j =
      (p j ≡ true)
      × (j.attempt_count + 1 ≡ next)
      × (is_status j.status running ≡ true)
      × Ends next dies f j

  Agrees-mine :
      (j : Job) (log : ℕ → Bool) (dead : Bool)
      → Commits j
      → Agrees k (some j) log dead
      → Committed k (some j) log dead
  Agrees-mine j log dead (met, count, runs, ends) (key, row, logged, same_death) =
      let (row', count', death) = ends row in
      rw met
        (rw (same j) key, row', λ n. rw count' (ground (arith, logged n)), rw death (ground arith))

  Agrees-other :
      (m : ℕ) (o : Option Job) (log : ℕ → Bool) (dead : Bool)
      → (k == m) ≡ false
      → ((j : Job) → p j ≡ true → j.id ≡ k)
      → Agrees m o log dead
      → Committed m o log dead
  Agrees-other m none log dead ne met (logged, d) = (λ n. ground (arith, logged n), ground arith)
  Agrees-other m (some j) log dead ne met (key, row, logged, d) = elim (Bool-cases (p j)) [
    | inl e ↦ absurd (ground (arith, met j e))
    | inr e ↦ rw e (key, row, λ n. ground (arith, logged n), ground arith)
  ]

-- The statements of a commit: the update of the row and the insert of the attempt.
module _ (dies : Bool) (q : Job → Bool) (f : Job → Job) (a : Attempt)
    (same : (j : Job) → (f j).id ≡ j.id) (db : Db) (j : Job) (v : IsValid db)
    (e : get_job a.job_id db ≡ some j) where
  abbrev meets : Job → Bool
  meets x = x.id == a.job_id && q x

  abbrev updated : Db
  updated = record db { jobs = update meets f db.jobs }

  abbrev Due : Type 0
  Due = Commits a.job_id a.attempt_no dies meets f same j

  pub row-Agrees :
      Agrees a.job_id (some j) (λ n. has_attempt a.job_id n db) (has_dead_letter a.job_id db)
  row-Agrees = rw e at (v.agrees a.job_id)

  get_job-updated : Due → get_job a.job_id updated ≡ some (f j)
  get_job-updated c = rw (get_job-update meets f db a.job_id same, e) (rw c.0)

  number_is_new : Due → has_attempt a.job_id a.attempt_no updated ≡ false
  unfolding has_attempt
  number_is_new c = rw (row-Agrees.2 a.attempt_no) (ground (arith, c.1))

  committed :
      (m : ℕ)
      → Due
      → Committed a.job_id a.attempt_no dies meets f same m
          (get_job m db)
          (λ n. has_attempt m n db)
          (has_dead_letter m db)
  committed m c = elim (ℕ_discrete a.job_id m) [
    | yes p ↦
        subst
          (λ k.
            Committed a.job_id a.attempt_no dies meets f same k (get_job k db)
              (λ n. has_attempt k n db) (has_dead_letter k db))
          p (rw e (Agrees-mine a.job_id a.attempt_no dies meets f same j _ _ c row-Agrees))
    | no other ↦
        Agrees-other a.job_id a.attempt_no dies meets f same m (get_job m db) _ _ (ground arith)
          (λ x h. ground arith) (v.agrees m)
  ]

  pub commit_attempt :
      Due
      → (db' : Db) × (insert_attempt a updated ≡ some db')
        × (db'.jobs ≡ update meets f db.jobs)
        × (get_job a.job_id db' ≡ some (f j))
        × ((m : ℕ)
            → Agrees m
                (get_job m db')
                (λ n. has_attempt m n db')
                (has_dead_letter m db' || (dies && a.job_id == m)))
  unfolding has_attempt has_dead_letter
  commit_attempt c =
      let (db', inserted, jobs, dead, logged) =
        insert_attempt_new a updated (rw (get_job-updated c)) (number_is_new c) in
      (
        db',
        inserted,
        jobs,
        get_job-same a.job_id updated db' jobs ∙ get_job-updated c,
        λ m.
            rw
              (
                get_job-same m updated db' jobs,
                has_dead_letter-same m updated db' dead,
                get_job-update meets f db m same,
                fun_ext (logged m),
              )
              (committed m c),
      )
