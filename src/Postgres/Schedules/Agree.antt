-- ===== src/Postgres/Schedules/Agree.antt =====
-- Switching a schedule: the two repositories agree, also when it is deleted in between.
use digitalocean.Base.{
  ℕ, ◌≡◌, refl, Bool, none, List, [], ◌∷◌, ◌==◌, if◌then◌else◌, arith, Option-cases, inl, inr,
}
use digitalocean.Models.{Schedule}
use digitalocean.Sql.{find, update, count}
use digitalocean.Repository.Store.{Db}
use digitalocean.Repository.Schedules as Sqlite
use digitalocean.Repository.Schedules.{Cron, get_schedule, next_run, enable}
use digitalocean.Postgres.Schedules.{write_enabled, set_schedule_enabled}

-- An update that met no row leaves none to look up.
no_row :
    (k : ℕ) (f : Schedule → Schedule) (rows : List Schedule)
    → ((s : Schedule) → (f s).id ≡ s.id)
    → (if count (λ s. s.id == k) rows == 0
        then none
        else find (λ s. s.id == k) (update (λ s. s.id == k) f rows))
      ≡ find (λ s. s.id == k) (update (λ s. s.id == k) f rows)
no_row k f [] same = refl
no_row k f (s ∷ rows) same = ground (arith, same s, no_row k f rows same)

write_enabled-agrees :
    (now k next : ℕ) (enabled : Bool) (db : Db)
    → write_enabled now k next enabled db ≡ Sqlite.write_enabled now k next enabled db
unfolding write_enabled Sqlite.write_enabled get_schedule
write_enabled-agrees now k next enabled db =
    rw (no_row k (enable now next enabled) db.recurring_schedules (λ s. refl)) refl

pub set_schedule_enabled-agrees :
    (cron : Cron) (between : Db → Db) (now k : ℕ) (enabled : Bool) (db : Db)
    → set_schedule_enabled cron between now k enabled db
      ≡ Sqlite.set_schedule_enabled cron between now k enabled db
unfolding set_schedule_enabled Sqlite.set_schedule_enabled
set_schedule_enabled-agrees cron between now k enabled db =
    elim (Option-cases (get_schedule k db)) [
      | inl gone ↦ rw (gone, set_schedule_enabled, Sqlite.set_schedule_enabled) refl
      | inr (s, e) ↦ elim (Option-cases (next_run cron now enabled s)) [
        | inl bad ↦ rw (e, set_schedule_enabled, Sqlite.set_schedule_enabled) (rw bad refl)
        | inr (next, good) ↦
            rw (e, set_schedule_enabled, Sqlite.set_schedule_enabled)
              (rw good (rw (write_enabled-agrees now k next enabled (between db)) refl))
      ]
    ]
