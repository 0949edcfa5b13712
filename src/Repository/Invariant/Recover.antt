-- ===== src/Repository/Invariant/Recover.antt =====
-- `recover_stale_jobs`: every expired lease ends as an abandoned attempt, and nothing else changes.
use digitalocean.Base.{
  ℕ, ◌+◌, ◌≡◌, refl, Bool, true, false, not, ◌&&◌, some, ◌==◌, is_same, arith, subst, ◌∙◌,
}
use digitalocean.Models.{Job, running, is_status}
use digitalocean.Repository.Store.{Db, get_job}
use digitalocean.Repository.Finish.{fail_attempt, will_retry, bury}
use digitalocean.Repository.Recover.{
  is_leased, lease_error, is_same_lease, abandoned_attempt, recover_row,
}
use digitalocean.Repository.Invariant.{IsRow, Agrees, IsValid, has_attempt, has_dead_letter}
use digitalocean.Repository.Invariant.Views.{get_job-update_ne, get_job-same, count-job, jobs-bury}
use digitalocean.Repository.Invariant.Finish.{fail_attempt-Ends, commit_attempt}
use digitalocean.Repository.Invariant.Marks.{buried-IsValid}

-- What recovery makes of the row of an expired lease.
abbrev pub abandon : ℕ → Job → Job
abandon now j = fail_attempt now (j.attempt_count + 1) j.max_retries lease_error now j

-- The test of `is_same_lease` without the identifier.
abbrev same_lease : Job → Job → Bool
same_lease row j =
    is_status j.status running
    && (is_same j.locked_by row.locked_by && is_same j.locked_at row.locked_at)

-- A leased row has its own lease.
same_lease_refl : (j : Job) → IsRow j → is_leased j ≡ true → same_lease j j ≡ true
same_lease_refl j row leased = ground arith

module _ (now : ℕ) (row : Job) (db : Db) (v : IsValid db) (e : get_job row.id db ≡ some row)
    (leased : is_leased row ≡ true) where
  abandon-IsRow : IsRow row
  abandon-IsRow =
      (subst (λ o. Agrees row.id o (λ n. has_attempt row.id n db) (has_dead_letter row.id db)) e
        (v.agrees row.id)).1

  same_lease_here : same_lease row row ≡ true
  same_lease_here = same_lease_refl row abandon-IsRow leased

  -- The body of the loop for one expired row of the table.
  pub recover_row_lem :
      (db' : Db) × (recover_row now row db ≡ some (db', 1))
      × IsValid db'
      × (get_job row.id db' ≡ some (abandon now row))
      × ((m : ℕ) → (row.id == m) ≡ false → get_job m db' ≡ get_job m db)
  unfolding recover_row
  recover_row_lem =
      let next = row.attempt_count + 1 in
      let f = fail_attempt now next row.max_retries lease_error now in
      let (db', inserted, jobs, found, agrees) =
        commit_attempt (not (will_retry next row.max_retries)) (same_lease row) f
          (abandoned_attempt now row) (λ x. refl) db row v e
          (
            rw same_lease_here (ground arith),
            refl,
            ground arith,
            fail_attempt-Ends now next row.max_retries now lease_error row (ground arith) refl refl,
          ) in
      let buried = bury now row.id row.payload lease_error next row.max_retries db' in
      let kept = (jobs-bury now row.id next row.payload lease_error row.max_retries db').0 in
      (
        buried,
        rw (count-job row.id (same_lease row) db v.keys, e, same_lease_here, inserted),
        buried-IsValid now row.id next row.payload lease_error row.max_retries (is_same_lease row) f
            db db' (λ x. refl) v jobs agrees,
        get_job-same row.id db' buried kept ∙ found,
        λ m other.
            get_job-same m db' buried kept
            ∙ get_job-update_ne row.id m (same_lease row) f db db' (λ x. refl) jobs other,
      )
