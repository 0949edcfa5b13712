-- ===== src/Tests/Jobs.antt =====
-- The built-in handler and a small load test.
use digitalocean.Base.{ℕ, ◌+◌, ◌*◌, ◌≡◌, refl, true, none, some, pos, map}
use digitalocean.Models.{queued, str, num, obj, field, end}
use digitalocean.Repository.Store.{Db, insert_job}
use digitalocean.Repository.Create.{batch_rows, insert_jobs}
use digitalocean.Repository.Depth.{counts}
use digitalocean.Worker.{returned}
use digitalocean.Handler.{is_text, Python, attempt_field, sum_of_squares, execute_job}
use digitalocean.Handler.Squares.{execute_job-compute}
use digitalocean.Api.{reply}
use digitalocean.Api.LoadTest.{
  is_load_test, echo_payload, load_test_payload, load_test_jobs, create_load_test,
}
use digitalocean.Api.LoadTest.Kinds.{fails, load_test_payload-kinds, create_load_test_lem}
use digitalocean.Tests.Samples.{empty_db}
use digitalocean.Tests.Settings.{defaults, defaults_valid}

abbrev python : Python
python = record {
  parse_int = λ s. none;
  parse_float = λ s. none;
  conversion_error = λ x. "not a number";
  failed_on_attempt = λ n. "simulated transient failure";
  unsupported_action = λ x. "unsupported action";
}

compute_three :
    (execute_job python (field "action" (str "compute") (field "n" (num (pos 4)) end)) 1 ≡ (
      0,
      returned (
          obj (
            field "n"
              (num (pos 4))
              (field "sum_of_squares" (num (pos (sum_of_squares 4))) (attempt_field 1)))),
    ))
    × (6 * sum_of_squares 4 ≡ 3 * 4 * 7)
compute_three = execute_job-compute python 3 1

-- The second attempt: a flaky job recovers, a poison one fails.
kinds_of_five :
    (execute_job python (load_test_payload "echo" 5) 2
      ≡ (0, returned (obj (field "echo" (obj (echo_payload 5)) (attempt_field 2)))))
    × (execute_job python (load_test_payload "flaky" 5) 2 ≡ fails python 1 2)
    × (execute_job python (load_test_payload "poison" 5) 2 ≡ fails python 9999 2)
    × ((execute_job python (load_test_payload "timeout" 5) 2).0 ≡ 2000000)
kinds_of_five = load_test_payload-kinds python 5 2

abbrev uuid : ℕ → ℕ
uuid n = n + 1

abbrev loaded_db : Db
loaded_db = record empty_db {
  jobs = batch_rows 10 uuid 3 5000000 (load_test_jobs 2 0 "flaky" (pos 0)) 0;
}

loaded :
    insert_jobs (batch_rows 10 uuid 3 5000000 (load_test_jobs 2 0 "flaky" (pos 0)) 0) empty_db
    ≡ some loaded_db
unfolding insert_jobs insert_job batch_rows load_test_jobs
loaded = refl

flaky : is_load_test 2 "flaky" (pos 0) ≡ true
unfolding is_text
flaky = refl

create_load_test_lem_example :
    (create_load_test 10 uuid 2 "flaky" (pos 0) defaults empty_db ≡ (
      loaded_db,
      reply 202 (
        2,
        map (λ j. j.id) (batch_rows 10 uuid 3 5000000 (load_test_jobs 2 0 "flaky" (pos 0)) 0),
      ),
    ))
    × (counts queued loaded_db.jobs ≡ counts queued empty_db.jobs + 2)
create_load_test_lem_example =
    create_load_test_lem 10 uuid 2 "flaky" (pos 0) defaults empty_db loaded_db defaults_valid flaky
      loaded
