-- ===== src/Backend/CatalogSync/Synchronised.antt =====
-- The feeds of a company behind the synchronisation of its file of the catalogue.
use manifeed.Common.{
  ℕ, ◌≡◌, refl, sym, true, false, not, ◌⊎◌, some, List, [], ◌∷◌, String, text_mem, eq_iff, arith,
  find, find-filter, find-holds, filter, All, All-filter, if-cases, inl, inr, WhenOk, >>=-WhenOk,
  WhenOk-imp,
}
use manifeed.Db.{Feed}
use manifeed.Backend.Catalog.{FeedUpsert}
use manifeed.Backend.Sync.{
  has_url, is_of_company, is_unexpected, is_deleted, delete_company_feeds_not_in_urls,
}
use manifeed.Backend.Sync.Deleted.{delete-IsExpected}
use manifeed.Backend.CatalogSync.Writes.{Session, flush, get_or_create_tags, link_in, delete_in}
use manifeed.Backend.CatalogSync.Keyed.{any-found}
use manifeed.Backend.CatalogSync.Links.{is_linked, with_links, apply_links-feeds, flush-IsLinked}
use manifeed.Backend.CatalogSync.Steps.{link-IsTracked, link-IsLinked, new_link-IsLinked}
use manifeed.Backend.CatalogSync.Advance.{Tracked, Linked, Advances, trans-Advances, tags-Advances}
use manifeed.Backend.CatalogSync.Upserted.{Finds, upsert-Advances}
use manifeed.Backend.CatalogSync.{urls_of, sync_feed, sync_feeds}

module _ (c : ℕ) (urls : List String) where
  abbrev pub Synced : List String → Session → Session → Type 0
  Synced us s s' = Advances c urls s s' × All (Linked c urls s') us

  link-Synced :
      (url : String) (id : ℕ) (s : Session)
      → text_mem url urls ≡ true
      → Tracked c urls s
      → Finds url (id, s)
      → Synced (url ∷ []) s (link_in c id s)
  link-Synced url id s named t (f, found, same) = (
    record {
      tracked =
          rw (sym same)
            (link-IsTracked c urls s.db.next_feed_id s.db.feeds s.pending url f found named t);
      keeps = λ u h. link-IsLinked c s.db.feeds s.pending u id h;
      companies = refl;
    },
    (rw (sym same) (new_link-IsLinked c s.db.feeds s.pending url f found), tt),
  )

  sync_feed-Synced :
      (p : FeedUpsert) (s : Session)
      → text_mem p.url urls ≡ true
      → Tracked c urls s
      → WhenOk (Synced (p.url ∷ []) s) (sync_feed c p s)
  unfolding sync_feed
  sync_feed-Synced p s named t =
      >>=-WhenOk _ (Synced (p.url ∷ []) s) (get_or_create_tags p.tags s) _
        (tags-Advances c urls p.tags s t)
        (λ r a.
          let (b, finds) = upsert-Advances c urls p r.0 r.1 a.tracked in
          let (d, linked) = link-Synced p.url _ _ named b.tracked finds in
          (trans-Advances c urls s _ _ (trans-Advances c urls s r.1 _ a b) d, linked))

  keeps-All :
      (us : List String) (s s' : Session)
      → Advances c urls s s'
      → All (Linked c urls s) us
      → All (Linked c urls s') us
  keeps-All [] s s' a _ = tt
  keeps-All (u ∷ us) s s' a (h, hs) = (a.keeps u h, keeps-All us s s' a hs)

  pub sync_feeds-Synced :
      (ps : List FeedUpsert) (s : Session)
      → All (λ u. text_mem u urls ≡ true) (urls_of ps)
      → Tracked c urls s
      → WhenOk (Synced (urls_of ps) s) (sync_feeds c ps s)
  unfolding sync_feeds
  sync_feeds-Synced [] s named t = (record { tracked = t; keeps = λ u h. h; companies = refl }, tt)
  sync_feeds-Synced (p ∷ ps) s (n, ns) t =
      >>=-WhenOk (Synced (p.url ∷ []) s) (Synced (urls_of (p ∷ ps)) s) (sync_feed c p s) _
        (sync_feed-Synced p s n t)
        (λ s₁ one.
          WhenOk-imp (Synced (urls_of ps) s₁) (Synced (urls_of (p ∷ ps)) s) (sync_feeds c ps s₁)
            (sync_feeds-Synced ps s₁ ns one.0.tracked)
            (λ s₂ rest.
              let (found, _) = keeps-All (p.url ∷ []) s₁ s₂ rest.0 one.1 in
              (trans-Advances c urls s s₁ s₂ one.0 rest.0, (found, rest.1))))

-- The feeds of the company are those of the URLs, and each URL has one.
pub record IsSynchronised (c : ℕ) (urls : List String) (fs : List Feed) : Type 0 where
  pub only : All (λ f. is_of_company c f.company_id ≡ true → text_mem f.url urls ≡ true) fs
  pub each : All (λ u. (f : Feed) × (find (has_url u) fs ≡ some f) × (f.company_id ≡ some c)) urls

only-linked :
    (c : ℕ) (urls : List String) (ls : List (ℕ × ℕ)) (fs : List Feed)
    → All (λ f. is_linked ls f.id ≡ true → text_mem f.url urls ≡ true) fs
    → All (λ f. is_unexpected c urls f ≡ false) fs
    → All
        (λ f. is_of_company c f.company_id ≡ true → text_mem f.url urls ≡ true)
        (with_links c ls fs)
only-linked c urls ls [] _ _ = tt
only-linked c urls ls (f ∷ fs) (h, hs) (k, ks) = (
  if-cases (λ (x : Feed). is_of_company c x.company_id ≡ true → text_mem x.url urls ≡ true)
      (is_linked ls f.id) _ _ (λ linked _. h linked) (λ _ own. ground (arith, k, own)),
  only-linked c urls ls fs hs ks,
)

module _ (c : ℕ) (urls : List String) (s : Session) (t : Tracked c urls s) where
  abbrev left : List Feed
  left = filter (λ f. not (is_deleted c urls s.db f.id)) s.db.feeds

  each-Linked :
      (us : List String)
      → All (λ u. text_mem u urls ≡ true) us
      → All (Linked c urls s) us
      → All
          (λ u.
            (f : Feed) × (find (has_url u) (with_links c s.pending left) ≡ some f)
            × (f.company_id ≡ some c))
          us
  each-Linked [] _ _ = tt
  each-Linked (u ∷ us) (n, ns) ((f, found, linked), hs) =
      (here f found linked, each-Linked us ns hs)
    where
      here :
          (f : Feed)
          → find (has_url u) s.db.feeds ≡ some f
          → (f.company_id ≡ some c) ⊎ (is_linked s.pending f.id ≡ true)
          → (g : Feed) × (find (has_url u) (with_links c s.pending left) ≡ some g)
            × (g.company_id ≡ some c)
      here f found linked =
          let named : text_mem f.url urls ≡ true =
            rw ((eq_iff f.url u).0 (find-holds (has_url u) s.db.feeds {a = f} found)) n in
          let kept : is_deleted c urls s.db f.id ≡ false =
            any-found s.db.next_feed_id (has_url u) (is_unexpected c urls) s.db.feeds {f = f}
              t.keyed found (ground (arith, named)) in
          let there =
            find-filter (has_url u) (λ x. not (is_deleted c urls s.db x.id)) s.db.feeds {a = f}
              found (rw kept) in
          let (g, again, own) =
            flush-IsLinked c urls s.db.next_feed_id left s.pending u (f, there, linked) in
          (g, again, elim own [ inl e ↦ e | inr e ↦ cc ])

  pub deleted-IsSynchronised :
      All (λ u. text_mem u urls ≡ true) urls
      → All (Linked c urls s) urls
      → IsSynchronised c urls (flush (delete_in c urls s)).db.feeds
  unfolding flush delete_company_feeds_not_in_urls
  deleted-IsSynchronised named linked =
      let (unexpected, _, _) = delete-IsExpected c urls s.db in
      rw (apply_links-feeds c s.pending (delete_company_feeds_not_in_urls c urls s.db) t.links)
        (record {
          only =
              only-linked c urls s.pending left
                (All-filter _ (λ f. not (is_deleted c urls s.db f.id)) s.db.feeds t.expected)
                unexpected;
          each = each-Linked urls named linked;
        })
