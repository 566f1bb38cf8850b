-- ===== src/Backend/Toggles/Companies.antt =====
-- What a toggle of a company comes to, and what it means for the toggles of its feeds.
use manifeed.Common.{
  ℕ, Bool-cases, List, is_some, is_some-find, ◌≡◌, ◌⊎◌, inl, inr, refl, sym, ap, ◌∙◌, Bool, true,
  false, Option, none, some, map_option, any, find, update, find-update, find-update_ne, find-holds,
  if-cases, ==_iff, ◌==◌, arith, Outcome, ok, err, Error,
}
use manifeed.Db.{Database, Company, Feed, is_feed, is_company}
use manifeed.Backend.Toggles.{
  bool_eq, set_rss_company_enabled, commit_toggle, is_disabled, toggle_found_feed,
  toggle_rss_feed_enabled, toggle_found_company, toggle_rss_company_enabled,
}
use manifeed.Backend.Toggles.Outcomes.{bool_eq-eq}
use mathlib.Core.Path.{subst}

-- The switch of the company that an id finds.
abbrev pub switch_of : ℕ → Database → Option Bool
switch_of id db = map_option (λ c. c.enabled) (find (is_company id) db.companies)

-- A toggle that succeeds has set the company and answers so, and leaves all other companies and all
-- feeds as they were; a toggle that fails leaves the database as it was.
abbrev pub CompanyToggled : ℕ → Bool → Database → Outcome (ℕ × Bool) × Database → Type 0
CompanyToggled id enabled db (err e, db') = db' ≡ db
CompanyToggled id enabled db (ok (answer_id, answer), db') =
    (answer_id ≡ id)
    × (answer ≡ enabled)
    × (switch_of id db' ≡ some enabled)
    × (db'.feeds ≡ db.feeds)
    × ((k : ℕ)
        → ((k ≡ id) ⊎ (find (is_company k) db'.companies ≡ find (is_company k) db.companies)))

other_companies_kept :
    (id k : ℕ) (enabled : Bool) (cs : List Company)
    → (k ≡ id)
      ⊎ (find (is_company k) (update (is_company id) (λ row. record row { enabled = enabled }) cs)
          ≡ find (is_company k) cs)
other_companies_kept id k enabled cs = elim (Bool-cases (k == id)) [
  | inl same ↦ inl ((==_iff k id).0 same)
  | inr other ↦ inr (
      find-update_ne (is_company k) (is_company id) (λ row. record row { enabled = enabled }) cs
        (λ x. refl) (λ x m. ground (arith, ==_iff x.id k)))
]

commit-CompanyToggled :
    (id : ℕ) (enabled : Bool) (db : Database) (commits : Bool) (company : Company)
    → find (is_company id) db.companies ≡ some company
    → CompanyToggled id enabled db (
        commit_toggle Error.company_not_found commits
          (company.id, enabled)
          db
          (set_rss_company_enabled id enabled db))
unfolding set_rss_company_enabled
commit-CompanyToggled id enabled db commits company found =
    let known : any (is_company id) db.companies ≡ true =
      sym (is_some-find (is_company id) db.companies) ∙ ap is_some found in
    rw known (
      if-cases (CompanyToggled id enabled db) commits _ _
        (λ _. (
          (==_iff company.id id).0 (find-holds (is_company id) db.companies {a = company} found),
          refl,
          ap (map_option (λ c. c.enabled)) (
              find-update (is_company id) (λ row. record row { enabled = enabled }) db.companies
                {a = company} (λ x. refl) found),
          refl,
          λ k. other_companies_kept id k enabled db.companies,
        ))
        (λ _. refl))

-- A toggle of a company that succeeds answers with the company and the wanted switch, which the
-- company has behind it, and leaves every other company and all feeds as they were; one that fails
-- leaves the database as it was.
pub toggle_rss_company_enabled-CompanyToggled :
    (company_id : ℕ) (enabled commits : Bool) (db : Database)
    → CompanyToggled company_id enabled db
        (toggle_rss_company_enabled company_id enabled commits db)
unfolding toggle_rss_company_enabled toggle_found_company
toggle_rss_company_enabled-CompanyToggled company_id enabled commits db =
    go (find (is_company company_id) db.companies) refl
  where
    go :
        (o : Option Company)
        → find (is_company company_id) db.companies ≡ o
        → CompanyToggled company_id enabled db
            (toggle_found_company company_id enabled commits o db)
    go none missing = refl
    go (some company) found =
        if-cases (CompanyToggled company_id enabled db) (bool_eq company.enabled enabled) _ _
          (λ same.
            let e = bool_eq-eq company.enabled enabled same in
            (
              (==_iff company.id company_id).0
                  (find-holds (is_company company_id) db.companies {a = company} found),
              e,
              ap (map_option (λ c. c.enabled)) found ∙ ap some e,
              refl,
              λ k. inr refl,
            ))
          (λ _. commit-CompanyToggled company_id enabled db commits company found)

switched_off :
    (o : Option Company) → map_option (λ c. c.enabled) o ≡ some false → is_disabled o ≡ true
switched_off none h = cc
switched_off (some c) h = cc

-- Behind a request that switches a company off and succeeds, no feed of the company can be switched,
-- on or off: a request to do so is forbidden and leaves the database as it is.
pub company_off_forbids :
    (company_id feed_id : ℕ) (enabled commits commits' : Bool) (answer : ℕ × Bool)
    (db db' : Database) (feed : Feed)
    → toggle_rss_company_enabled company_id false commits db ≡ (ok answer, db')
    → find (is_feed feed_id) db'.feeds ≡ some feed
    → feed.company_id ≡ some company_id
    → bool_eq feed.enabled enabled ≡ false
    → toggle_rss_feed_enabled feed_id enabled commits' db' ≡ (err Error.toggle_forbidden, db')
unfolding toggle_rss_feed_enabled toggle_found_feed
company_off_forbids company_id feed_id enabled commits commits' answer db db' feed off found own
      other =
    let (_, _, switch, _, _) =
      subst (CompanyToggled company_id false db) off
        (toggle_rss_company_enabled-CompanyToggled company_id false commits db) in
    rw found (
      rw other
        (rw own (rw (switched_off (find (is_company company_id) db'.companies) switch) refl)))
