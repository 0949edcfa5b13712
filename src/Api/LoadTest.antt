-- ===== src/Api/LoadTest.antt =====
-- The load test of app/main.py: `load_test_payload` and `create_load_test`.
pub mod Kinds
use digitalocean.Base.{
  ℕ, zero, suc, ◌+◌, ◌%◌, ℤ, String, Bool, ◌&&◌, ◌||◌, List, [], ◌∷◌, ◌==◌, Option, none, some, pos,
  leb, length, if◌then◌else◌,
}
use digitalocean.Models.{JsonFields, JobCreate, RuntimeConfig, num, str, obj, end, field}
use digitalocean.Repository.Store.{Db, Result, ok, raise}
use digitalocean.Repository.Create.{create_jobs_batch}
use digitalocean.Config.{view}
use digitalocean.Handler.{is_text}
use digitalocean.Api.{Response, reply, http_exception, internal_error, is_priority}

abbrev pub origin : (index : ℕ) → JsonFields
origin index = field "source" (str "load-test") (field "index" (num (pos index)) end)

abbrev pub echo_payload : (index : ℕ) → JsonFields
echo_payload index = field "action" (str "echo") (origin index)

abbrev pub fail_payload : (failures index : ℕ) → JsonFields
fail_payload failures index =
    field "action" (str "fail")
      (field "failures_before_success" (num (pos failures)) (origin index))

abbrev pub sleep_payload : (seconds index : ℕ) → JsonFields
sleep_payload seconds index =
    field "action" (str "sleep") (field "seconds" (num (pos seconds)) (origin index))

-- The kind `mixed`.
abbrev pub mixed_payload : (index : ℕ) → JsonFields
mixed_payload index =
    if index % 25 == 0
    then fail_payload 9999 index
    else (if index % 10 == 0
        then fail_payload 1 index
        else (if index % 15 == 0 then sleep_payload 1 index else echo_payload index))

unfoldable pub load_test_payload : (kind : String) → (index : ℕ) → JsonFields
load_test_payload kind index =
    if is_text "echo" (str kind)
    then echo_payload index
    else (if is_text "flaky" (str kind)
        then fail_payload 1 index
        else (if is_text "poison" (str kind)
            then fail_payload 9999 index
            else (if is_text "timeout" (str kind)
                then sleep_payload 2 index
                else mixed_payload index)))

-- The pattern of `LoadTestRequest.kind`.
abbrev pub is_kind : String → Bool
is_kind kind =
    is_text "echo" (str kind)
    || is_text "flaky" (str kind)
    || is_text "poison" (str kind)
    || is_text "timeout" (str kind)
    || is_text "mixed" (str kind)

abbrev pub is_load_test : (count : ℕ) → String → ℤ → Bool
is_load_test count kind priority =
    (leb 1 count && leb count 10000) && (is_kind kind && is_priority priority)

-- `for index in range(first, first + count)`
unfoldable pub load_test_jobs : (count first : ℕ) → String → ℤ → List JobCreate
load_test_jobs zero first kind priority = []
load_test_jobs (suc count) first kind priority =
    record {
      payload = obj (load_test_payload kind first);
      priority = priority;
      max_retries = none;
      timeout_seconds = none;
      run_at = none;
    }
    ∷ load_test_jobs count (first + 1) kind priority

-- `LoadTestResponse(created=len(job_ids), job_ids=job_ids)`
abbrev pub load_test_created : Db × Result (List ℕ) → Db × Response (ℕ × List ℕ)
load_test_created (db, ok job_ids) = (db, reply 202 (length job_ids, job_ids))
load_test_created (db, raise _) = (db, internal_error)

unfoldable pub create_load_test :
    ℕ
    → (ℕ → ℕ)
    → (count : ℕ) → String
    → ℤ
    → (store : RuntimeConfig) → Db
    → Db × Response (ℕ × List ℕ)
create_load_test now uuid count kind priority store db =
    if is_load_test count kind priority
    then elim (view store) [
      | none ↦ (db, internal_error)
      | some c ↦ load_test_created (
          create_jobs_batch now uuid (load_test_jobs count 0 kind priority) c.default_max_retries
            c.default_timeout_seconds db)
    ]
    else (db, http_exception 422)
