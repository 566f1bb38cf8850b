-- ===== src/Backend/CatalogSync/Moved.antt =====
-- A feed that moves from one company to another within one synchronisation.
use manifeed.Common.{
  ℕ, ◌≡◌, refl, ap, ◌∙◌, Bool, true, false, ◌&&◌, none, some, List, [], ◌∷◌, String, text_mem,
  arith, any, find, find-update_map, map_option, if◌then◌else◌, ◌==◌, ==_refl,
}
use manifeed.Db.{Database, Feed, is_feed}
use manifeed.Backend.Sync.{
  link_company_to_feed, is_unexpected, is_deleted, delete_company_feeds_not_in_urls,
}
use manifeed.Backend.Sync.Deleted.{delete-IsExpected}
use manifeed.Backend.CatalogSync.Writes.{Session, apply_links, flush, link_in, delete_in}

found-any :
    (id : ℕ) (p : Feed → Bool) (fs : List Feed) {f : Feed}
    → find (is_feed id) fs ≡ some f
    → p f ≡ true
    → any (λ g. g.id == id && p g) fs ≡ true
found-any id p [] e h = cc
found-any id p (g ∷ fs) {f} e h = ground (arith, found-any id p fs {f = f})

missing-apply_links :
    (id : ℕ) (ls : List (ℕ × ℕ)) (db : Database)
    → find (is_feed id) db.feeds ≡ none
    → find (is_feed id) (apply_links ls db).feeds ≡ none
unfolding apply_links link_company_to_feed
missing-apply_links id [] db h = h
missing-apply_links id ((c, k) ∷ ls) db h =
    find-update_map (is_feed id) (is_feed k) (λ row. record row { company_id = some c })
      (apply_links ls db).feeds (λ x. refl)
    ∙ ap (map_option (λ x. if is_feed k x then record x { company_id = some c } else x))
        (missing-apply_links id ls db h)

-- A feed that is linked to a new company loses its row, if its old company's file is read behind
-- that, without a flush in between, and no longer names it: the deletion does not see the link.
pub moved_feed_is_deleted :
    (old new : ℕ) (urls : List String) (feed : Feed) (s : Session)
    → find (is_feed feed.id) s.db.feeds ≡ some feed
    → feed.company_id ≡ some old
    → text_mem feed.url urls ≡ false
    → find (is_feed feed.id) (flush (delete_in old urls (link_in new feed.id s))).db.feeds ≡ none
unfolding flush
moved_feed_is_deleted old new urls feed s found own unnamed =
    let gone : is_deleted old urls s.db feed.id ≡ true =
      found-any feed.id (is_unexpected old urls) s.db.feeds {f = feed} found
        (rw own (rw (==_refl old) (rw unnamed))) in
    missing-apply_links feed.id ((new, feed.id) ∷ s.pending)
      (delete_company_feeds_not_in_urls old urls s.db)
      ((delete-IsExpected old urls s.db).1 feed.id ∙ rw gone)
