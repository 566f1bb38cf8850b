-- ===== src/Tests/Migrating.antt =====
-- Runs of the db_manager's migration: one that succeeds at its second attempt, and one that does not.
use manifeed.Common.{◌==◌, ◌≡◌, refl, true, [], ◌∷◌, pos, ok, err, Error}
use manifeed.DbManager.Migration.{
  Alembic, upgrade_from, upgrade_with, build_alembic_config, run_db_migrations,
}
use manifeed.DbManager.Migration.Attempts.{IsDecided, run_db_migrations-IsDecided}

abbrev second_time : Alembic
second_time = record { ini_exists = true; script_location_exists = true; upgrades = λ n. n == 2 }

second_attempt :
    run_db_migrations second_time (pos 5) 2000
    ≡ (ok tt, record { attempts = 2; sleeps = 2000 ∷ [] })
unfolding run_db_migrations upgrade_from upgrade_with build_alembic_config
second_attempt = refl

too_few_attempts :
    run_db_migrations second_time (pos 1) 2000
    ≡ (err Error.db_manager, record { attempts = 1; sleeps = [] })
unfolding run_db_migrations upgrade_from upgrade_with build_alembic_config
too_few_attempts = refl

run_db_migrations-IsDecided_example :
    IsDecided second_time.upgrades 5 1 (run_db_migrations second_time (pos 5) 2000)
run_db_migrations-IsDecided_example = run_db_migrations-IsDecided second_time 4 2000 refl refl
