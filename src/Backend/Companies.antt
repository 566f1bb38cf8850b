-- ===== src/Backend/Companies.antt =====
-- backend/app/clients/database/rss/rss_company_db_cli.py, with normalize_country of
-- backend/app/utils/normalize_utils.py.
pub mod Created
use manifeed.Common.{
  ℕ, ◌+◌, Bool, true, false, not, Option, none, some, ◌∷◌, String, str_eq, min, max, find, update,
  strip, lower, text_take, is_empty, if◌then◌else◌, Outcome, ok, Error, ◌>>=◌, ◌>>◌, raise_if,
}
use manifeed.Db.{Database, Company, is_company, fits}
use manifeed.Backend.Host.{normalize_host}

unfoldable pub normalize_country : Option String → Option String
unfolding strip lower text_take
normalize_country none = none
normalize_country (some country) = some (text_take 2 (lower (strip country)))

abbrev pub has_name : String → Company → Bool
has_name name row = str_eq row.name name

unfoldable pub get_company_by_name : Database → String → Option Company
get_company_by_name db name = find (has_name name) db.companies

-- What the catalogue says of a company.
pub record CompanyData : Type 0 where
  pub host : Option String
  pub icon_url : String
  pub country : Option String
  pub language : Option String
  pub fetchprotection : ℕ

abbrev stripped_icon : String → Option String
stripped_icon icon_url = if is_empty (strip icon_url) then none else some (strip icon_url)

-- What `_update_company_metadata` sets.
unfoldable pub with_metadata : Option String → CompanyData → Company → Company
unfolding normalize_country strip
with_metadata host d row = record row {
  host = host;
  icon_url = stripped_icon d.icon_url;
  country = normalize_country d.country;
  language = normalize_country d.language;
  fetchprotection = max 0 (min 2 d.fetchprotection);
}

-- The row of a new company; its name has to fit the column.
unfoldable pub new_company : String → CompanyData → Database → Outcome Company
unfolding normalize_country
new_company name d db = do
  host ← normalize_host d.host
  raise_if (not (fits 50 name)) Error.data_error
  ok (record {
    id = db.next_company_id;
    name = name;
    host = host;
    icon_url = some d.icon_url;
    country = normalize_country d.country;
    language = normalize_country d.language;
    fetchprotection = max 0 (min 2 d.fetchprotection);
    enabled = true;
  })

-- The company, and whether it is new.
unfoldable pub get_or_create_found :
    String → CompanyData → Option Company → Database → Outcome (Company × Bool × Database)
unfolding with_metadata new_company
get_or_create_found name d none db = do
  company ← new_company name d db
  ok (
    company,
    true,
    record db { companies = company ∷ db.companies; next_company_id = db.next_company_id + 1 },
  )
get_or_create_found name d (some existing) db = do
  host ← normalize_host d.host
  ok (
    with_metadata host d existing,
    false,
    record db { companies = update (is_company existing.id) (with_metadata host d) db.companies },
  )

unfoldable pub get_or_create_company :
    String → CompanyData → Database → Outcome (Company × Bool × Database)
unfolding get_or_create_found get_company_by_name
get_or_create_company name d db = get_or_create_found name d (get_company_by_name db name) db
