-- ===== src/Backend/Toggles.antt =====
-- backend/app/services/rss/rss_toggle_service.py, with the statements that it uses: switching a feed
-- or a company on and off. Whether a commit succeeds is given.
pub mod Outcomes
pub mod Companies
use manifeed.Common.{
  ℕ, Bool, true, false, not, Option, none, some, String, any, find, update, if◌then◌else◌, Outcome,
  ok, err, Error,
}
use manifeed.Db.{Database, Company, Feed, is_feed, is_company}
use manifeed.Backend.Payloads.{company_of}

-- `a == b` of two Booleans
abbrev pub bool_eq : Bool → Bool → Bool
bool_eq true b = b
bool_eq false b = not b

-- `UPDATE rss_feeds SET enabled = … WHERE id = …`, and whether a row was there
unfoldable pub set_rss_feed_enabled : ℕ → Bool → Database → Bool × Database
set_rss_feed_enabled feed_id enabled db = (
  any (is_feed feed_id) db.feeds,
  record db { feeds = update (is_feed feed_id) (λ row. record row { enabled = enabled }) db.feeds },
)

unfoldable pub set_rss_company_enabled : ℕ → Bool → Database → Bool × Database
set_rss_company_enabled company_id enabled db = (
  any (is_company company_id) db.companies,
  record db {
    companies =
        update (is_company company_id) (λ row. record row { enabled = enabled }) db.companies;
  },
)

-- the `try` of a toggle: the update, the check of its count, and the commit
abbrev pub commit_toggle :
    Error → Bool → ℕ × Bool → Database → Bool × Database → Outcome (ℕ × Bool) × Database
commit_toggle missing commits answer before (false, db) = (err missing, before)
commit_toggle missing commits answer before (true, db) =
    if commits then (ok answer, db) else (err Error.driver_error, before)

abbrev pub is_disabled : Option Company → Bool
is_disabled none = false
is_disabled (some c) = not c.enabled

unfoldable pub toggle_found_feed :
    ℕ → Bool → Bool → Option Feed → Database → Outcome (ℕ × Bool) × Database
unfolding set_rss_feed_enabled
toggle_found_feed feed_id enabled commits none db = (err Error.feed_not_found, db)
toggle_found_feed feed_id enabled commits (some feed) db =
    if bool_eq feed.enabled enabled
    then (ok (feed.id, feed.enabled), db)
    else if is_disabled (company_of feed.company_id db)
    then (err Error.toggle_forbidden, db)
    else commit_toggle Error.feed_not_found commits (feed.id, enabled) db
        (set_rss_feed_enabled feed_id enabled db)

unfoldable pub toggle_rss_feed_enabled : ℕ → Bool → Bool → Database → Outcome (ℕ × Bool) × Database
toggle_rss_feed_enabled feed_id enabled commits db =
    toggle_found_feed feed_id enabled commits (find (is_feed feed_id) db.feeds) db

unfoldable pub toggle_found_company :
    ℕ → Bool → Bool → Option Company → Database → Outcome (ℕ × Bool) × Database
unfolding set_rss_company_enabled
toggle_found_company company_id enabled commits none db = (err Error.company_not_found, db)
toggle_found_company company_id enabled commits (some company) db =
    if bool_eq company.enabled enabled
    then (ok (company.id, company.enabled), db)
    else commit_toggle Error.company_not_found commits (company.id, enabled) db
        (set_rss_company_enabled company_id enabled db)

unfoldable pub toggle_rss_company_enabled :
    ℕ → Bool → Bool → Database → Outcome (ℕ × Bool) × Database
toggle_rss_company_enabled company_id enabled commits db =
    toggle_found_company company_id enabled commits (find (is_company company_id) db.companies) db
