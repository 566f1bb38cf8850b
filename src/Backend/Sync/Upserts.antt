-- ===== src/Backend/Sync/Upserts.antt =====
-- A feed of a catalogue behind its upsert.
use manifeed.Common.{
  ℕ, ◌≡◌, refl, sym, ap, ◌∙◌, Bool, true, false, Option, none, some, map_option, List, [], ◌∷◌,
  String, ==_refl, eq_refl, arith, max, any, find, update, find-update, if-cases, Option-cases, inl,
  inr, is_some, is_some-find,
}
use manifeed.Db.{Database, Feed, FeedScraping, is_feed, is_scraping}
use manifeed.Backend.Catalog.{FeedUpsert}
use manifeed.Backend.Sync.{
  known_fetchprotection, has_url, new_scraping_row, set_tags, get_or_create_feed_scraping,
  raise_fetchprotection, insert_feed, update_feed, upsert_found, upsert_feed,
}

-- The mode that is stored for a feed; without a row it is 1.
abbrev pub mode_of : ℕ → Database → ℕ
mode_of id db =
    known_fetchprotection (map_option (λ r. r.fetchprotection) (find (is_scraping id) db.scraping))

-- The id of the feed that a URL finds.
abbrev pub id_of : String → Database → Option ℕ
id_of url db = map_option (λ f. f.id) (find (has_url url) db.feeds)

known-known :
    (o : Option ℕ)
    → known_fetchprotection (some (known_fetchprotection o)) ≡ known_fetchprotection o
unfolding known_fetchprotection
known-known none = refl
known-known (some n) = ground arith

known-max :
    (a b : Option ℕ)
    → known_fetchprotection (some (max (known_fetchprotection a) (known_fetchprotection b)))
      ≡ max (known_fetchprotection a) (known_fetchprotection b)
unfolding known_fetchprotection
known-max none none = ground arith
known-max none (some b) = ground arith
known-max (some a) none = ground arith
known-max (some a) (some b) = ground arith

-- Whether the row was there or not, a feed has one behind `_get_or_create_feed_scraping`, with the mode
-- that it had.
created-row :
    (id : ℕ) (db : Database)
    → (row : FeedScraping) × (find (is_scraping id) (get_or_create_feed_scraping id db).scraping
        ≡ some row)
      × (known_fetchprotection (some row.fetchprotection) ≡ mode_of id db)
unfolding get_or_create_feed_scraping
created-row id db = elim (Option-cases (find (is_scraping id) db.scraping)) [
  | inl missing ↦
      let none_there : any (is_scraping id) db.scraping ≡ false =
        sym (is_some-find (is_scraping id) db.scraping) ∙ ap is_some missing in
      (
        new_scraping_row id 1,
        rw none_there (rw (==_refl id)),
        rw missing (unfold known_fetchprotection in refl),
      )
  | inr (row, found) ↦
      let one_there : any (is_scraping id) db.scraping ≡ true =
        sym (is_some-find (is_scraping id) db.scraping) ∙ ap is_some found in
      (row, rw one_there found, rw found)
]

id-update :
    (p q : Feed → Bool) (f : Feed → Feed) (xs : List Feed)
    → ((x : Feed) → p (f x) ≡ p x)
    → ((x : Feed) → (f x).id ≡ x.id)
    → map_option (λ x. x.id) (find p (update q f xs)) ≡ map_option (λ x. x.id) (find p xs)
id-update p q f [] h k = refl
id-update p q f (x ∷ xs) h k = ground (arith, h x, k x, id-update p q f xs h k)

raised-mode :
    (id n : ℕ) (db : Database)
    → mode_of id (raise_fetchprotection id (some n) (get_or_create_feed_scraping id db))
      ≡ max (mode_of id db) (known_fetchprotection (some n))
unfolding raise_fetchprotection
raised-mode id n db =
    let (row, found, mode) = created-row id db in
    let updated =
      find-update (is_scraping id)
        (λ r. record r {
          fetchprotection =
              max (known_fetchprotection (some r.fetchprotection)) (known_fetchprotection (some n));
        })
        (get_or_create_feed_scraping id db).scraping {a = row} (λ x. refl) found in
    ap (λ o. known_fetchprotection (map_option (λ r. r.fetchprotection) o)) updated
    ∙ known-max (some row.fetchprotection) (some n)
    ∙ ap (λ m. max m (known_fetchprotection (some n))) mode

-- What an upsert of a payload that wants the mode `n` does, by the feed that its URL found before.
abbrev pub Upserted : FeedUpsert → ℕ → Database → Option Feed → ℕ × Database → Type 0
Upserted payload n db none (id, db') =
    (id_of payload.url db' ≡ some id) × (mode_of id db' ≡ known_fetchprotection (some n))
Upserted payload n db (some feed) (id, db') =
    (id_of payload.url db' ≡ some id)
    × (id ≡ feed.id)
    × (mode_of id db' ≡ max (mode_of id db) (known_fetchprotection (some n)))

insert_feed-Upserted :
    (payload : FeedUpsert) (tags : List ℕ) (n : ℕ) (db : Database)
    → payload.fetchprotection ≡ some n
    → Upserted payload n db none (insert_feed payload tags db)
unfolding insert_feed set_tags
insert_feed-Upserted payload tags n db wanted = (
  rw (eq_refl payload.url),
  rw (==_refl db.next_feed_id) (
      ap (λ o. known_fetchprotection (some (known_fetchprotection o))) wanted
      ∙ known-known (some n)),
)

pub raise-feeds :
    (id : ℕ) (o : Option ℕ) (db : Database) → (raise_fetchprotection id o db).feeds ≡ db.feeds
unfolding raise_fetchprotection
raise-feeds id none db = refl
raise-feeds id (some n) db = refl

pub created-feeds : (id : ℕ) (db : Database) → (get_or_create_feed_scraping id db).feeds ≡ db.feeds
unfolding get_or_create_feed_scraping
created-feeds id db =
    if-cases (λ (x : Database). x.feeds ≡ db.feeds) (any (is_scraping id) db.scraping) _ _
      (λ _. refl) (λ _. refl)

abbrev with_payload : FeedUpsert → Feed → Database → Database
with_payload payload feed db = record db {
  feeds =
      update (is_feed feed.id)
        (λ row. record row {
          section = payload.section;
          enabled = payload.enabled;
          trust_score = payload.trust_score;
        })
        db.feeds;
}

update_feed-Upserted :
    (payload : FeedUpsert) (tags : List ℕ) (n : ℕ) (feed : Feed) (db : Database)
    → payload.fetchprotection ≡ some n
    → find (has_url payload.url) db.feeds ≡ some feed
    → Upserted payload n db (some feed) (update_feed payload tags feed db)
unfolding update_feed set_tags
update_feed-Upserted payload tags n feed db wanted found =
    let db₁ = with_payload payload feed db in
    let feeds =
      raise-feeds feed.id payload.fetchprotection (get_or_create_feed_scraping feed.id db₁)
      ∙ created-feeds feed.id db₁ in
    (
      ap (λ fs. map_option (λ f. f.id) (find (has_url payload.url) fs)) feeds
          ∙ id-update (has_url payload.url) (is_feed feed.id) _ db.feeds (λ x. refl) (λ x. refl)
          ∙ ap (map_option (λ f. f.id)) found,
      refl,
      ap
            (λ o.
              mode_of feed.id
                (raise_fetchprotection feed.id o (get_or_create_feed_scraping feed.id db₁)))
            wanted
          ∙ raised-mode feed.id n db₁,
    )

-- Behind the upsert of a feed its URL finds the feed that is returned, which is the one that the URL
-- found before, if any; and its fetch protection is the higher one of the wanted one and of the one
-- that was stored, and for a new feed the wanted one.
pub upsert_feed-Upserted :
    (payload : FeedUpsert) (tags : List ℕ) (n : ℕ) (db : Database)
    → payload.fetchprotection ≡ some n
    → Upserted payload n db (find (has_url payload.url) db.feeds) (upsert_feed payload tags db)
unfolding upsert_feed upsert_found
upsert_feed-Upserted payload tags n db wanted = go (find (has_url payload.url) db.feeds) refl
  where
    go :
        (o : Option Feed)
        → find (has_url payload.url) db.feeds ≡ o
        → Upserted payload n db o (upsert_found payload tags o db)
    go none missing = insert_feed-Upserted payload tags n db wanted
    go (some feed) found = update_feed-Upserted payload tags n feed db wanted found
