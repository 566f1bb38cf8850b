-- ===== src/Backend/CatalogSync/Advance.antt =====
-- The writes of a session, one by one, and its links.
use manifeed.Common.{
  ℕ, ◌≡◌, refl, ◌∙◌, not, List, [], ◌∷◌, String, is_nil, if-cases, Error, raise_if, WhenOk,
  any-WhenOk, >>=-WhenOk,
}
use manifeed.Db.{Database, fits}
use manifeed.Backend.Catalog.{dedup_str}
use manifeed.Backend.CatalogSync.Writes.{
  Session, flush, insert_tags, missing_tags, get_or_create_tags,
}
use manifeed.Backend.CatalogSync.Links.{
  apply_links-feeds, apply_links-next, apply_links-companies, IsTracked, IsLinked, flush-IsTracked,
  flush-IsLinked,
}

module _ (c : ℕ) (urls : List String) where
  abbrev pub Tracked : Session → Type 0
  Tracked s = IsTracked c urls s.db.next_feed_id s.db.feeds s.pending

  abbrev pub Linked : Session → String → Type 0
  Linked s u = IsLinked c s.db.feeds s.pending u

  -- From one session to a later one no link is lost.
  pub record Advances (s s' : Session) : Type 0 where
    pub tracked : Tracked s'
    pub keeps : (u : String) → Linked s u → Linked s' u
    pub companies : s'.db.companies ≡ s.db.companies

  pub trans-Advances : (s t r : Session) → Advances s t → Advances t r → Advances s r
  trans-Advances s t r a b = record {
    tracked = b.tracked;
    keeps = λ u h. b.keeps u (a.keeps u h);
    companies = b.companies ∙ a.companies;
  }

  pub flush-Advances : (s : Session) → Tracked s → Advances s (flush s)
  unfolding flush
  flush-Advances s t =
      let feeds = apply_links-feeds c s.pending s.db t.links in
      record {
        tracked = rw feeds (
            rw (apply_links-next s.pending s.db)
              (flush-IsTracked c urls s.db.next_feed_id s.db.feeds s.pending t));
        keeps = λ u h. rw feeds (flush-IsLinked c urls s.db.next_feed_id s.db.feeds s.pending u h);
        companies = apply_links-companies s.pending s.db;
      }

  same-Tracked :
      (s s' : Session)
      → s'.db.feeds ≡ s.db.feeds
      → s'.db.next_feed_id ≡ s.db.next_feed_id
      → s'.pending ≡ s.pending
      → Tracked s
      → Tracked s'
  same-Tracked s s' feeds next pending t = rw feeds (rw next (rw pending t))

  same-Advances :
      (s s' : Session)
      → s'.db.feeds ≡ s.db.feeds
      → s'.db.next_feed_id ≡ s.db.next_feed_id
      → s'.pending ≡ s.pending
      → s'.db.companies ≡ s.db.companies
      → Tracked s
      → Advances s s'
  same-Advances s s' feeds next pending companies t = record {
    companies = companies;
    tracked = same-Tracked s s' feeds next pending t;
    keeps = λ u h. rw feeds (rw pending h);
  }

  -- A write that leaves the feeds alone, and the flush behind it.
  pub flushed-Advances :
      (s : Session) (db : Database)
      → db.feeds ≡ s.db.feeds
      → db.next_feed_id ≡ s.db.next_feed_id
      → db.companies ≡ s.db.companies
      → Tracked s
      → Advances s (flush (record s { db = db }))
  flushed-Advances s db feeds next companies t =
      let a = same-Advances s (record s { db = db }) feeds next refl companies t in
      trans-Advances s (record s { db = db }) (flush (record s { db = db })) a
        (flush-Advances (record s { db = db }) a.tracked)

insert_tags-feeds :
    (names : List String) (db : Database)
    → WhenOk
        (λ (db' : Database).
          (db'.feeds ≡ db.feeds)
          × (db'.next_feed_id ≡ db.next_feed_id)
          × (db'.companies ≡ db.companies))
        (insert_tags names db)
unfolding insert_tags
insert_tags-feeds [] db = (refl, refl, refl)
insert_tags-feeds (name ∷ names) db =
    >>=-WhenOk (λ _. Unit) _ (raise_if (not (fits 50 name)) Error.data_error) _ (any-WhenOk _)
      (λ _ _. insert_tags-feeds names _)

module _ (c : ℕ) (urls : List String) where
  pub tags-Advances :
      (names : List String) (s : Session)
      → Tracked c urls s
      → WhenOk (λ (r : List ℕ × Session). Advances c urls s r.1) (get_or_create_tags names s)
  unfolding get_or_create_tags
  tags-Advances names s t =
      if-cases (WhenOk (λ (r : List ℕ × Session). Advances c urls s r.1))
        (is_nil (missing_tags (dedup_str names) s.db)) _ _
        (λ _. same-Advances c urls s s refl refl refl refl t)
        (λ _.
          >>=-WhenOk _ (λ (r : List ℕ × Session). Advances c urls s r.1)
            (insert_tags (missing_tags (dedup_str names) s.db) s.db) _
            (insert_tags-feeds (missing_tags (dedup_str names) s.db) s.db)
            (λ db h. flushed-Advances c urls s db h.0 h.1 h.2 t))
