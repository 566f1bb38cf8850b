-- ===== src/Backend/Companies/Created.antt =====
-- The company that a request finds or creates, looked up by its name.
use manifeed.Common.{
  ◌≡◌, refl, ap, ◌∙◌, inl, inr, Bool, not, some, none, map_option, String, eq_refl, ==_refl, find,
  find-update_map, Option-cases, if◌then◌else◌, Error, raise_if, WhenOk, any-WhenOk, >>=-WhenOk,
}
use manifeed.Db.{Database, Company, is_company, fits}
use manifeed.Backend.Host.{normalize_host}
use manifeed.Backend.Companies.{
  CompanyData, has_name, get_company_by_name, with_metadata, new_company, get_or_create_found,
  get_or_create_company,
}

-- What a request for a company leaves: the name finds the company, and the feeds are as they were.
pub record IsCreated (name : String) (db : Database) (r : Company × Bool × Database) : Type 0 where
  pub found : find (has_name name) r.2.companies ≡ some r.0
  pub feeds : r.2.feeds ≡ db.feeds
  pub next : r.2.next_feed_id ≡ db.next_feed_id

new_company-name :
    (name : String) (d : CompanyData) (db : Database)
    → WhenOk (λ (c : Company). c.name ≡ name) (new_company name d db)
unfolding new_company
new_company-name name d db =
    >>=-WhenOk (λ _. Unit) (λ (c : Company). c.name ≡ name) (normalize_host d.host) _ (any-WhenOk _)
      (λ _ _.
        >>=-WhenOk (λ _. Unit) (λ (c : Company). c.name ≡ name)
          (raise_if (not (fits 50 name)) Error.data_error) _ (any-WhenOk _) (λ _ _. refl))

module _ (name : String) (d : CompanyData) (db : Database) where
  created : WhenOk (IsCreated name db) (get_or_create_found name d none db)
  unfolding get_or_create_found
  created =
      >>=-WhenOk (λ (c : Company). c.name ≡ name) (IsCreated name db) (new_company name d db) _
        (new_company-name name d db)
        (λ c e. record { found = rw e (rw (eq_refl name)); feeds = refl; next = refl })

  refreshed :
      (existing : Company)
      → find (has_name name) db.companies ≡ some existing
      → WhenOk (IsCreated name db) (get_or_create_found name d (some existing) db)
  unfolding get_or_create_found with_metadata
  refreshed existing there =
      >>=-WhenOk (λ _. Unit) (IsCreated name db) (normalize_host d.host) _ (any-WhenOk _)
        (λ host _. record {
          found =
              find-update_map (has_name name) (is_company existing.id) (with_metadata host d)
                db.companies (λ x. refl)
              ∙ ap
                  (map_option (λ x. if is_company existing.id x then with_metadata host d x else x))
                  there
              ∙ rw (==_refl existing.id);
          feeds = refl;
          next = refl;
        })

  pub get_or_create_company-IsCreated : WhenOk (IsCreated name db) (get_or_create_company name d db)
  unfolding get_or_create_company get_company_by_name
  get_or_create_company-IsCreated = elim (Option-cases (find (has_name name) db.companies)) [
    | inl missing ↦ rw missing created
    | inr (existing, there) ↦ rw there (refreshed existing there)
  ]
