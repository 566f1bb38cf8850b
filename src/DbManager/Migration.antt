-- ===== src/DbManager/Migration.antt =====
-- db-manager/app/services/migration_service.py: the schema is brought up to date before the consumer
-- starts. What alembic does is given: whether its n-th upgrade raises.
pub mod Attempts
use manifeed.Common.{
  ℕ, zero, suc, ◌+◌, Bool, true, false, not, List, [], ◌∷◌, ℤ, pos, negsuc, leb, if◌then◌else◌,
  Outcome, ok, err, Error, ◌>>=◌, ◌>>◌, raise_if,
}

-- What stands outside.
pub record Alembic : Type 0 where
  pub ini_exists : Bool
  pub script_location_exists : Bool
  pub upgrades : ℕ → Bool

-- How many upgrades were tried, and the delays slept between them, in milliseconds.
pub record Tried : Type 0 where
  pub attempts : ℕ
  pub sleeps : List ℕ

abbrev pub default_migration_max_attempts : ℤ
default_migration_max_attempts = pos 5

abbrev pub default_migration_retry_delay : ℕ
default_migration_retry_delay = 2000

-- The loop, with the attempts that are left and the number of the next one.
unfoldable pub upgrade_from : (ℕ → Bool) → ℕ → ℕ → ℕ → ℕ → Outcome (Unit {0}) × Tried
upgrade_from upgrades max_attempts delay zero attempt =
    (ok tt, record { attempts = 0; sleeps = [] })
upgrade_from upgrades max_attempts delay (suc left) attempt =
    let (result, tried) = upgrade_from upgrades max_attempts delay left (suc attempt) in
    if upgrades attempt
    then (ok tt, record { attempts = 1; sleeps = [] })
    else if leb max_attempts attempt
    then (err Error.db_manager, record { attempts = 1; sleeps = [] })
    else (result, record { attempts = suc tried.attempts; sleeps = delay ∷ tried.sleeps })

-- `_build_alembic_config`
unfoldable pub build_alembic_config : Alembic → Outcome (Unit {0})
build_alembic_config a = do
  raise_if (not a.ini_exists) Error.db_manager
  raise_if (not a.script_location_exists) Error.db_manager

-- The loop behind the configuration, which it needs.
unfoldable pub upgrade_with : Alembic → Outcome (Unit {0}) → ℕ → ℕ → Outcome (Unit {0}) × Tried
unfolding upgrade_from
upgrade_with a (err e) max_attempts delay = (err e, record { attempts = 0; sleeps = [] })
upgrade_with a (ok _) max_attempts delay = upgrade_from a.upgrades max_attempts delay max_attempts 1

unfoldable pub run_db_migrations : Alembic → ℤ → ℕ → Outcome (Unit {0}) × Tried
unfolding build_alembic_config upgrade_with
run_db_migrations a (negsuc _) delay = (err Error.db_manager, record { attempts = 0; sleeps = [] })
run_db_migrations a (pos zero) delay = (err Error.db_manager, record { attempts = 0; sleeps = [] })
run_db_migrations a (pos (suc n)) delay = upgrade_with a (build_alembic_config a) (suc n) delay
