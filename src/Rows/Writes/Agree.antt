-- ===== src/Rows/Writes/Agree.antt =====
-- The inserts, the cancellation and the drain on the stored rows do what those of the model do.
use digitalocean.Base.{
  ℕ, ◌≡◌, refl, not, ◌&&◌, Option, none, some, List, [], ◌∷◌, ◌==◌, is_same, is_some, arith,
  Bool-cases, inl, inr, sym, ◌∙◌,
}
use digitalocean.Models.{Job, queued, is_status}
use digitalocean.Sql.{find, update}
use digitalocean.Sql.Related.{
  Related, find-Related, update-Related, append-Related, count-Related, RelatedAny-is_some,
}
use digitalocean.DbTime.{DateTime, isoformat}
use digitalocean.DbTime.Calendar.{micros}
use digitalocean.DbTime.Order.{text_before}
use digitalocean.Repository.Store.{Db, get_job, clashes, insert_job}
use digitalocean.Repository.Cancel.{cancel, cancel_job, drain_queue}
use digitalocean.Rows.{Text, Loads, JobRow, status_text, is_text}
use digitalocean.Rows.Stored.{IsTime, Writes, WritesAny, IsStored}
use digitalocean.Rows.Claims.{is_text-queued, text_before-Writes, Claimed}
use digitalocean.Rows.Writes.{
  same_text, row_clashes, insert_row, row_cancelled, cancel_row, drain_rows,
}

-- Texts are the same where neither comes first.
is_text-before : (a b : Text) → is_text a b ≡ (not (text_before a b) && not (text_before b a))
is_text-before [] [] = refl
is_text-before [] (b ∷ bs) = refl
is_text-before (a ∷ as_) [] = refl
is_text-before (a ∷ as_) (b ∷ bs) = ground (arith, is_text-before as_ bs)

is_text-Writes : (a b : Text) (m n : ℕ) → Writes a m → Writes b n → is_text a b ≡ (m == n)
is_text-Writes a b m n wa wb =
    is_text-before a b
    ∙ rw (text_before-Writes a b m n wa wb, text_before-Writes b a n m wb wa) (ground arith)

same_text-agrees :
    (a b : Option Text) (m n : Option ℕ)
    → WritesAny a m
    → WritesAny b n
    → same_text a b ≡ is_same m n
same_text-agrees none none none none wa wb = refl
same_text-agrees none (some b) none (some n) wa wb = refl
same_text-agrees (some a) none (some m) none wa wb = refl
same_text-agrees (some a) (some b) (some m) (some n) wa wb = is_text-Writes a b m n wa wb
same_text-agrees none b (some m) n wa wb = absurd wa
same_text-agrees (some a) b none n wa wb = absurd wa
same_text-agrees a none m (some n) wa wb = absurd wb
same_text-agrees a (some b) m none wa wb = absurd wb

module _ (loads : Loads) where
  row_clashes-agrees :
      (row row' : JobRow) (j j' : Job)
      → IsStored loads row j
      → IsStored loads row' j'
      → row_clashes row row' ≡ clashes j j'
  row_clashes-agrees row row' j j' s s' =
      let times =
        same_text-agrees row'.scheduled_for row.scheduled_for j'.scheduled_for j.scheduled_for
          s'.scheduled_for s.scheduled_for in
      rw (s.id, s'.id, s.idempotency_key, s'.idempotency_key, s.schedule_id, s'.schedule_id, times)
        refl

  row_cancelled-IsStored :
      (now : DateTime) (row : JobRow) (j : Job)
      → IsTime now
      → IsStored loads row j
      → IsStored loads (row_cancelled (isoformat now) row) (cancel (micros now) j)
  row_cancelled-IsStored now row j ok s = record {
    id = s.id;
    idempotency_key = s.idempotency_key;
    request_fingerprint = s.request_fingerprint;
    schedule_id = s.schedule_id;
    scheduled_for = s.scheduled_for;
    status = refl;
    payload = s.payload;
    result = s.result;
    priority = s.priority;
    max_retries = s.max_retries;
    timeout_seconds = s.timeout_seconds;
    attempt_count = s.attempt_count;
    last_error = s.last_error;
    run_at = s.run_at;
    locked_by = s.locked_by;
    locked_at = s.locked_at;
    created_at = s.created_at;
    updated_at = (now, ok, refl, refl);
    finished_at = (now, ok, refl, refl);
  }

  queued-agrees :
      (row : JobRow) (j : Job)
      → IsStored loads row j
      → is_text row.status (status_text queued) ≡ is_status j.status queued
  queued-agrees row j s = rw (s.status, is_text-queued j.status) refl

  -- The rows after an insert, or a clash on both sides.
  abbrev pub Inserted : Option (List JobRow) → Option Db → Type 0
  Inserted none none = Unit
  Inserted (some rows) (some db) = Related (IsStored loads) rows db.jobs
  Inserted _ _ = ⊥

  pub insert_row-Inserted :
      (row : JobRow) (j : Job) (rows : List JobRow) (db : Db)
      → IsStored loads row j
      → Related (IsStored loads) rows db.jobs
      → Inserted (insert_row row rows) (insert_job j db)
  unfolding insert_row insert_job
  insert_row-Inserted row j rows db s r =
      let same =
        RelatedAny-is_some (IsStored loads) (find (row_clashes row) rows) (find (clashes j) db.jobs)
          (find-Related (IsStored loads) (row_clashes row) (clashes j)
            (λ row' j' s'. row_clashes-agrees row row' j j' s s') rows db.jobs r) in
      elim (Bool-cases (is_some (find (row_clashes row) rows))) [
        | inl clash ↦ let clash' = sym same ∙ clash in rw (clash, clash') tt
        | inr free ↦
            let free' = sym same ∙ free in
            rw (free, free') (append-Related (IsStored loads) row j s rows db.jobs r)
      ]

  pub cancel_row-Claimed :
      (now : DateTime) (job_id : ℕ) (rows : List JobRow) (db : Db)
      → IsTime now
      → Related (IsStored loads) rows db.jobs
      → Claimed loads (cancel_row (isoformat now) job_id rows) (cancel_job (micros now) job_id db)
  unfolding cancel_row cancel_job get_job
  cancel_row-Claimed now job_id rows db ok r =
      let written =
        update-Related (IsStored loads)
          (λ x. x.id == job_id && is_text x.status (status_text queued))
          (λ x. x.id == job_id && is_status x.status queued)
          (λ x y s. rw (s.id, queued-agrees x y s) refl) (row_cancelled (isoformat now))
          (cancel (micros now)) (λ x y s. row_cancelled-IsStored now x y ok s) rows db.jobs r in
      (
        written,
        find-Related (IsStored loads) (λ x. x.id == job_id) (λ x. x.id == job_id)
            (λ x y s. rw s.id refl)
            (update (λ x. x.id == job_id && is_text x.status (status_text queued))
              (row_cancelled (isoformat now)) rows)
            (update (λ x. x.id == job_id && is_status x.status queued) (cancel (micros now))
              db.jobs)
            written,
      )

  pub drain_rows-Related :
      (now : DateTime) (rows : List JobRow) (db : Db)
      → IsTime now
      → Related (IsStored loads) rows db.jobs
      → Related
          (IsStored loads)
          (drain_rows (isoformat now) rows).0
          (drain_queue (micros now) db).0.jobs
        × ((drain_rows (isoformat now) rows).1 ≡ (drain_queue (micros now) db).1)
  unfolding drain_rows drain_queue
  drain_rows-Related now rows db ok r = (
    update-Related (IsStored loads) (λ x. is_text x.status (status_text queued))
        (λ x. is_status x.status queued) queued-agrees (row_cancelled (isoformat now))
        (cancel (micros now)) (λ x y s. row_cancelled-IsStored now x y ok s) rows db.jobs r,
    count-Related (IsStored loads) (λ x. is_text x.status (status_text queued))
        (λ x. is_status x.status queued) queued-agrees rows db.jobs r,
  )
