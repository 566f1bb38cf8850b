-- ===== src/Tests/Service.antt =====
-- Runs of the backend's toggles and of its job lock.
use manifeed.Common.{ℕ, suc, ◌≡◌, refl, true, false, [], find, some, ok, err, Error}
use manifeed.Backend.Toggles.{
  toggle_rss_feed_enabled, toggle_rss_company_enabled, toggle_found_company,
  set_rss_company_enabled,
}
use manifeed.Backend.Toggles.Companies.{company_off_forbids}
use manifeed.Backend.Toggles.Outcomes.{Toggled, toggle_rss_feed_enabled-Toggled}
use manifeed.Backend.JobLock.{pg_lock_id, Locks, Server, connected, Body, job_lock}
use manifeed.Backend.JobLock.Exclusion.{job_lock-excludes}
use manifeed.Tests.{catalogue, feed_row}
use manifeed.Db.{Database, is_feed}

toggle_rss_feed_enabled-Toggled_example :
    Toggled 2 false catalogue (toggle_rss_feed_enabled 2 false true catalogue)
toggle_rss_feed_enabled-Toggled_example = toggle_rss_feed_enabled-Toggled 2 false true catalogue

abbrev company_off : Database
company_off = (toggle_rss_company_enabled 1 false true catalogue).1

switches_off : toggle_rss_company_enabled 1 false true catalogue ≡ (ok (1, false), company_off)
unfolding toggle_rss_company_enabled toggle_found_company set_rss_company_enabled
switches_off = refl

feed_there : find (is_feed 2) company_off.feeds ≡ some (feed_row 2 "https://b.example/rss" (some 1))
unfolding toggle_rss_company_enabled toggle_found_company set_rss_company_enabled
feed_there = refl

company_off_forbids_example :
    toggle_rss_feed_enabled 2 false true company_off ≡ (err Error.toggle_forbidden, company_off)
company_off_forbids_example =
    company_off_forbids 1 2 false true true (1, false) catalogue company_off
      (feed_row 2 "https://b.example/rss" (some 1)) switches_off feed_there refl refl

abbrev server : Server
server = record { opening = connected; is_free = true; unlocks = true }

-- A body that counts its runs, and raises.
abbrev counting : Body ℕ ℕ
counting locks runs = (err Error.driver_error, suc runs)

abbrev no_locks : Locks
no_locks = record { local = []; server = [] }

one_run : (job_lock server "rss_sync" counting no_locks 0).2 ≡ 1
unfolding job_lock pg_lock_id
one_run = refl

job_lock-excludes_example :
    (job_lock {A = ℕ} server "rss_sync"
      (λ l s. let (r, _, s') = job_lock server "rss_sync" counting l s in (r, s'))
      no_locks
      0).2
    ≡ 0
job_lock-excludes_example = job_lock-excludes server server "rss_sync" counting no_locks 0
