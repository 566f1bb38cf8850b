-- ===== src/Backend/CatalogSync/Upserted.antt =====
-- The upsert of a feed, and the links of its session.
use manifeed.Common.{
  ℕ, ◌≡◌, refl, sym, ap, ◌∙◌, Option, some, none, List, String, eq_refl, any, find, update, is_some,
  is_some-find, if◌then◌else◌, if-cases, Option-cases, inl, inr, map_option, find-update_map,
}
use manifeed.Db.{Database, Feed, is_feed, is_scraping}
use manifeed.Backend.Catalog.{FeedUpsert}
use manifeed.Backend.Sync.{
  has_url, set_tags, get_or_create_feed_scraping, raise_fetchprotection, insert_feed, update_feed,
  upsert_found, upsert_feed,
}
use manifeed.Backend.Sync.Upserts.{raise-feeds, created-feeds}
use manifeed.Backend.CatalogSync.Writes.{Session, flush, upsert_feed_in}
use manifeed.Backend.CatalogSync.Links.{apply_links-feeds, is_linked, set_company, insert-IsTracked}
use manifeed.Backend.CatalogSync.Steps.{update-IsTracked, insert-IsLinked, update-IsLinked}
use manifeed.Backend.CatalogSync.Advance.{Tracked, Advances, trans-Advances, flush-Advances}

abbrev set_payload : FeedUpsert → Feed → Feed
set_payload payload row = record row {
  section = payload.section;
  enabled = payload.enabled;
  trust_score = payload.trust_score;
}

raise-next :
    (id : ℕ) (o : Option ℕ) (db : Database)
    → (raise_fetchprotection id o db).next_feed_id ≡ db.next_feed_id
unfolding raise_fetchprotection
raise-next id none db = refl
raise-next id (some n) db = refl

created-next :
    (id : ℕ) (db : Database) → (get_or_create_feed_scraping id db).next_feed_id ≡ db.next_feed_id
unfolding get_or_create_feed_scraping
created-next id db =
    if-cases (λ (x : Database). x.next_feed_id ≡ db.next_feed_id) (any (is_scraping id) db.scraping)
      _ _ (λ _. refl) (λ _. refl)

raise-companies :
    (id : ℕ) (o : Option ℕ) (db : Database)
    → (raise_fetchprotection id o db).companies ≡ db.companies
unfolding raise_fetchprotection
raise-companies id none db = refl
raise-companies id (some n) db = refl

created-companies :
    (id : ℕ) (db : Database) → (get_or_create_feed_scraping id db).companies ≡ db.companies
unfolding get_or_create_feed_scraping
created-companies id db =
    if-cases (λ (x : Database). x.companies ≡ db.companies) (any (is_scraping id) db.scraping) _ _
      (λ _. refl) (λ _. refl)

update_feed-feeds :
    (payload : FeedUpsert) (tags : List ℕ) (feed : Feed) (db : Database)
    → ((update_feed payload tags feed db).1.feeds
        ≡ update (is_feed feed.id) (set_payload payload) db.feeds)
      × ((update_feed payload tags feed db).1.next_feed_id ≡ db.next_feed_id)
      × ((update_feed payload tags feed db).1.companies ≡ db.companies)
unfolding update_feed set_tags
update_feed-feeds payload tags feed db = (
  raise-feeds feed.id payload.fetchprotection _ ∙ created-feeds feed.id _,
  raise-next feed.id payload.fetchprotection _ ∙ created-next feed.id _,
  raise-companies feed.id payload.fetchprotection _ ∙ created-companies feed.id _,
)

abbrev new_feed : FeedUpsert → ℕ → Feed
new_feed payload id = record {
  id = id;
  url = payload.url;
  section = payload.section;
  enabled = payload.enabled;
  trust_score = payload.trust_score;
  company_id = none;
}

-- The URL finds the feed that was returned.
abbrev pub Finds : String → ℕ × Session → Type 0
Finds url (id, s) = (f : Feed) × (find (has_url url) s.db.feeds ≡ some f) × (f.id ≡ id)

flush-Finds :
    (c : ℕ) (urls : List String) (url : String) (id : ℕ) (s : Session)
    → Tracked c urls s
    → Finds url (id, s)
    → Finds url (id, flush s)
unfolding flush
flush-Finds c urls url id s t (f, found, same) = (
  if is_linked s.pending f.id then set_company c f else f,
  ap (find (has_url url)) (apply_links-feeds c s.pending s.db t.links)
      ∙ find-update_map (has_url url) (λ x. is_linked s.pending x.id) (set_company c) s.db.feeds
          (λ x. refl)
      ∙ ap (map_option (λ x. if is_linked s.pending x.id then set_company c x else x)) found,
  if-cases (λ (x : Feed). x.id ≡ id) (is_linked s.pending f.id) _ _ (λ _. same) (λ _. same),
)

module _ (c : ℕ) (urls : List String) (payload : FeedUpsert) (tags : List ℕ) (s : Session)
    (t : Tracked c urls s) where
  inserted :
      find (has_url payload.url) s.db.feeds ≡ none
      → let r = insert_feed payload tags s.db in
        Advances c urls s (flush (record s { db = r.1 }))
        × Finds payload.url (r.0, flush (record s { db = r.1 }))
  unfolding insert_feed set_tags
  inserted missing =
      let f = new_feed payload s.db.next_feed_id in
      let s₁ : Session = record s { db = (insert_feed payload tags s.db).1 } in
      let a : Advances c urls s s₁ = record {
        tracked = insert-IsTracked c urls s.db.next_feed_id s.db.feeds s.pending f refl t;
        keeps = λ u h. insert-IsLinked c s.db.feeds s.pending u f missing h;
        companies = refl;
      } in
      (
        trans-Advances c urls s s₁ (flush s₁) a (flush-Advances c urls s₁ a.tracked),
        flush-Finds c urls payload.url s.db.next_feed_id s₁ a.tracked
            (f, rw (eq_refl payload.url), refl),
      )

  updated :
      (f : Feed)
      → find (has_url payload.url) s.db.feeds ≡ some f
      → let r = update_feed payload tags f s.db in
        Advances c urls s (record s { db = r.1 }) × Finds payload.url (r.0, record s { db = r.1 })
  unfolding update_feed
  updated f found =
      let (feeds, next, companies) = update_feed-feeds payload tags f s.db in
      let s₁ : Session = record s { db = (update_feed payload tags f s.db).1 } in
      let q = is_feed f.id in
      let g = set_payload payload in
      (
        record {
          companies = companies;
          tracked = rw feeds (
              rw next (
                update-IsTracked c urls s.db.next_feed_id s.db.feeds s.pending q g (λ x. refl)
                  (λ x. refl) t));
          keeps = λ u h.
              rw feeds (
                update-IsLinked c s.db.feeds s.pending u q g (λ x. refl) (λ x. refl) (λ x. refl) h);
        },
        (
          if q f then g f else f,
          ap (find (has_url payload.url)) feeds
              ∙ find-update_map (has_url payload.url) q g s.db.feeds (λ x. refl)
              ∙ ap (map_option (λ x. if q x then g x else x)) found,
          if-cases (λ (x : Feed). x.id ≡ f.id) (q f) _ _ (λ _. refl) (λ _. refl),
        ),
      )

  pub upsert-Advances :
      let r = upsert_feed_in payload tags s in Advances c urls s r.1 × Finds payload.url r
  unfolding upsert_feed_in upsert_feed upsert_found
  upsert-Advances = elim (Option-cases (find (has_url payload.url) s.db.feeds)) [
    | inl missing ↦ rw missing (
        rw (sym (is_some-find (has_url payload.url) s.db.feeds) ∙ ap is_some missing)
          (inserted missing))
    | inr (f, found) ↦ rw found (
        rw (sym (is_some-find (has_url payload.url) s.db.feeds) ∙ ap is_some found)
          (updated f found))
  ]
