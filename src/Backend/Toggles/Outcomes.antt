-- ===== src/Backend/Toggles/Outcomes.antt =====
-- What a toggle of a feed comes to.
use manifeed.Common.{
  ℕ, Bool-cases, List, is_some, is_some-find, ◌≡◌, ◌⊎◌, inl, inr, refl, sym, ap, ◌∙◌, Bool, true,
  false, Option, none, some, map_option, any, find, update, find-update, find-update_ne, find-holds,
  if-cases, ==_iff, ◌==◌, arith, Outcome, ok, err, Error,
}
use manifeed.Db.{Database, Feed, is_feed}
use manifeed.Backend.Payloads.{company_of}
use manifeed.Backend.Toggles.{
  bool_eq, set_rss_feed_enabled, commit_toggle, is_disabled, toggle_found_feed,
  toggle_rss_feed_enabled,
}

-- The switch of the feed that an id finds.
abbrev pub enabled_of : ℕ → Database → Option Bool
enabled_of id db = map_option (λ f. f.enabled) (find (is_feed id) db.feeds)

-- A toggle that succeeds has set the feed and answers so, and leaves all other feeds as they were; a
-- toggle that fails leaves the database as it was.
abbrev pub Toggled : ℕ → Bool → Database → Outcome (ℕ × Bool) × Database → Type 0
Toggled id enabled db (err e, db') = db' ≡ db
Toggled id enabled db (ok (answer_id, answer), db') =
    (answer_id ≡ id)
    × (answer ≡ enabled)
    × (enabled_of id db' ≡ some enabled)
    × ((k : ℕ) → ((k ≡ id) ⊎ (find (is_feed k) db'.feeds ≡ find (is_feed k) db.feeds)))

pub bool_eq-eq : (a b : Bool) → bool_eq a b ≡ true → a ≡ b
bool_eq-eq true true h = refl
bool_eq-eq true false h = cc
bool_eq-eq false true h = cc
bool_eq-eq false false h = refl

others_kept :
    (id k : ℕ) (enabled : Bool) (fs : List Feed)
    → (k ≡ id)
      ⊎ (find (is_feed k) (update (is_feed id) (λ row. record row { enabled = enabled }) fs)
          ≡ find (is_feed k) fs)
others_kept id k enabled fs = elim (Bool-cases (k == id)) [
  | inl same ↦ inl ((==_iff k id).0 same)
  | inr other ↦ inr (
      find-update_ne (is_feed k) (is_feed id) (λ row. record row { enabled = enabled }) fs
        (λ x. refl) (λ x m. ground (arith, ==_iff x.id k)))
]

module _ (id : ℕ) (enabled : Bool) (db : Database) where
  unchanged-Toggled :
      (feed : Feed)
      → find (is_feed id) db.feeds ≡ some feed
      → bool_eq feed.enabled enabled ≡ true
      → Toggled id enabled db (ok (feed.id, feed.enabled), db)
  unchanged-Toggled feed found same =
      let e = bool_eq-eq feed.enabled enabled same in
      (
        (==_iff feed.id id).0 (find-holds (is_feed id) db.feeds {a = feed} found),
        e,
        ap (map_option (λ f. f.enabled)) found ∙ ap some e,
        λ k. inr refl,
      )

  commit-Toggled :
      (commits : Bool) (feed : Feed)
      → find (is_feed id) db.feeds ≡ some feed
      → Toggled id enabled db (
          commit_toggle Error.feed_not_found commits
            (feed.id, enabled)
            db
            (set_rss_feed_enabled id enabled db))
  unfolding set_rss_feed_enabled
  commit-Toggled commits feed found =
      let known : any (is_feed id) db.feeds ≡ true =
        sym (is_some-find (is_feed id) db.feeds) ∙ ap is_some found in
      rw known (
        if-cases (Toggled id enabled db) commits _ _
          (λ _. (
            (==_iff feed.id id).0 (find-holds (is_feed id) db.feeds {a = feed} found),
            refl,
            ap (map_option (λ f. f.enabled)) (
                find-update (is_feed id) (λ row. record row { enabled = enabled }) db.feeds
                  {a = feed} (λ x. refl) found),
            λ k. others_kept id k enabled db.feeds,
          ))
          (λ _. refl))

-- A toggle of a feed that succeeds answers with the feed and the wanted switch, which the feed has
-- behind it, and leaves every other feed as it was; one that fails leaves the database as it was.
pub toggle_rss_feed_enabled-Toggled :
    (feed_id : ℕ) (enabled commits : Bool) (db : Database)
    → Toggled feed_id enabled db (toggle_rss_feed_enabled feed_id enabled commits db)
unfolding toggle_rss_feed_enabled toggle_found_feed
toggle_rss_feed_enabled-Toggled feed_id enabled commits db =
    go (find (is_feed feed_id) db.feeds) refl
  where
    go :
        (o : Option Feed)
        → find (is_feed feed_id) db.feeds ≡ o
        → Toggled feed_id enabled db (toggle_found_feed feed_id enabled commits o db)
    go none missing = refl
    go (some feed) found =
        if-cases (Toggled feed_id enabled db) (bool_eq feed.enabled enabled) _ _
          (λ same. unchanged-Toggled feed_id enabled db feed found same)
          (λ _.
            if-cases (Toggled feed_id enabled db) (is_disabled (company_of feed.company_id db)) _ _
              (λ _. refl) (λ _. commit-Toggled feed_id enabled db commits feed found))
