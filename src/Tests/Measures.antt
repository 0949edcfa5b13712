-- ===== src/Tests/Measures.antt =====
-- The metrics of the sample tables, with numbers in hundredths in place of floats.
use digitalocean.Base.{ℕ, ◌+◌, ◌-◌, ◌*◌, ◌/◌, ◌≡◌, ◌↔◌, refl, some, length, ltb, is_some, arith}
use digitalocean.Repository.Store.{Db}
use digitalocean.Repository.Depth.{queue_depth, latency_seconds}
use digitalocean.Api.{reply}
use digitalocean.Api.Metrics.{Floats, Metrics, idle, metrics}
use digitalocean.Api.Metrics.Replies.{IsShare, metrics-replies}
use digitalocean.Tests.Samples.{sample_db}
use digitalocean.Tests.Settings.{defaults, defaults_valid}

abbrev hundredths : Floats ℕ
hundredths = record {
  lt = ltb;
  of_int = λ n. n * 100;
  seconds = λ n. n / 10000;
  add = λ a b. a + b;
  sub = λ a b. a - b;
  mul = λ a b. a * b / 100;
  floor = λ a. a / 100;
  ceil = λ a. (a + 99) / 100;
  round_4 = λ a. a;
  half = 50;
  ninety_five_hundredths = 95;
}

half-IsShare : IsShare hundredths 50
half-IsShare last = (omega arith, omega arith)

most-IsShare : IsShare hundredths 95
most-IsShare last = (omega arith, omega arith)

abbrev round4 : ℕ → ℕ → ℕ
round4 n d = n * 10000 / d

abbrev measured_db : Db
measured_db = record sample_db { runtime_config = some defaults }

metrics-replies_example :
    (v : Metrics ℕ) × (metrics hundredths round4 100 101 1 defaults measured_db
      ≡ (defaults, reply 200 v))
    × (is_some v.job_latency_p50_seconds ≡ ltb 0 (length (latency_seconds 500 measured_db)))
    × (is_some v.job_latency_p95_seconds ≡ ltb 0 (length (latency_seconds 500 measured_db)))
    × ((v.pressure ≡ idle) ↔ ((v.queue_depth.due_queued ≡ 0) × (v.worker_utilization ≡ 0)))
    × (v.queue_depth ≡ queue_depth 100 (λ d. d) measured_db)
metrics-replies_example =
    metrics-replies hundredths round4 100 101 1 defaults defaults measured_db half-IsShare
      most-IsShare refl defaults_valid
