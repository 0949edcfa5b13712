-- ===== src/Postgres/Schedules/Same.antt =====
-- The materializers of the two repositories do the same.
use digitalocean.Base.{ℕ, Option, none, some}
use digitalocean.Repository.Store.{Db, Result, ok, raise, invalid_cron_expression}
use digitalocean.Repository.Schedules.Materialize as Sqlite
use digitalocean.Repository.Schedules.Materialize.{advance}

abbrev inserted : Option Db → Db → Db × ℕ
inserted none db = (db, 0)
inserted (some db') db = (db', 1)

abbrev to_result : Option (Db × ℕ) → Result (Db × ℕ)
to_result none = raise invalid_cron_expression
to_result (some r) = ok r
