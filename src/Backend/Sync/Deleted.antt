-- ===== src/Backend/Sync/Deleted.antt =====
-- The deletion of the feeds of a company that are not expected, and of what refers to them.
use manifeed.Common.{
  ℕ, ◌≡◌, refl, Bool, true, false, not, ◌&&◌, none, List, [], ◌∷◌, String, ◌==◌, ==_refl, ==_iff,
  arith, any, find, filter, All, if-cases, Bool-cases, if◌then◌else◌, inl, inr,
}
use manifeed.Db.{Database, ScrapeJobResult, Feed, is_feed}
use manifeed.Backend.Sync.{is_unexpected, is_deleted, delete_company_feeds_not_in_urls}

find-kept :
    (k : ℕ) (d : ℕ → Bool) (xs : List Feed)
    → find (is_feed k) (filter (λ f. not (d f.id)) xs) ≡ (if d k then none else find (is_feed k) xs)
find-kept k d [] = ground arith
find-kept k d (x ∷ xs) = ground (arith, ==_iff x.id k, find-kept k d xs)

if-true : (b c : Bool) → c ≡ true → (if b then true else c) ≡ true
if-true true c h = refl
if-true false c h = h

not-true : (b : Bool) → not b ≡ true → b ≡ false
not-true true h = cc
not-true false h = refl

module _ (p : Feed → Bool) (all : List Feed) where
  expected :
      (x : Feed) (xs : List Feed)
      → ((k : ℕ)
          → any (λ g. g.id == k && p g) (x ∷ xs) ≡ true
          → any (λ g. g.id == k && p g) all ≡ true)
      → not (any (λ g. g.id == x.id && p g) all) ≡ true
      → p x ≡ false
  expected x xs h kept = elim (Bool-cases (p x)) [
    | inl bad ↦ cc (rw (h x.id (rw (==_refl x.id) (rw bad))) at kept)
    | inr good ↦ good
  ]

  expected-kept :
      (xs : List Feed)
      → ((k : ℕ) → any (λ g. g.id == k && p g) xs ≡ true → any (λ g. g.id == k && p g) all ≡ true)
      → All (λ f. p f ≡ false) (filter (λ f. not (any (λ g. g.id == f.id && p g) all)) xs)
  expected-kept [] h = tt
  expected-kept (x ∷ xs) h =
      if-cases (All (λ f. p f ≡ false)) (not (any (λ g. g.id == x.id && p g) all)) _ _
        (λ kept. (expected x xs h kept, expected-kept xs (λ k e. h k (if-true _ _ e))))
        (λ gone. expected-kept xs (λ k e. h k (if-true _ _ e)))

-- Deleting the unexpected feeds of a company leaves none of them, and a feed is found by its id behind
-- it as before unless it is one of them; no result of a deleted feed is left.
pub delete-IsExpected :
    (company_id : ℕ) (urls : List String) (db : Database)
    → let db' = delete_company_feeds_not_in_urls company_id urls db in
      All (λ f. is_unexpected company_id urls f ≡ false) db'.feeds
      × ((k : ℕ)
          → find (is_feed k) db'.feeds
            ≡ (if is_deleted company_id urls db k then none else find (is_feed k) db.feeds))
      × All (λ r. is_deleted company_id urls db r.feed_id ≡ false) db'.results
unfolding delete_company_feeds_not_in_urls
delete-IsExpected company_id urls db = (
  expected-kept (is_unexpected company_id urls) db.feeds db.feeds (λ k e. e),
  λ k. find-kept k (is_deleted company_id urls db) db.feeds,
  results-kept db.results,
)
  where
    results-kept :
        (rs : List ScrapeJobResult)
        → All
            (λ r. is_deleted company_id urls db r.feed_id ≡ false)
            (filter (λ r. not (is_deleted company_id urls db r.feed_id)) rs)
    results-kept [] = tt
    results-kept (r ∷ rs) =
        if-cases (All (λ r. is_deleted company_id urls db r.feed_id ≡ false))
          (not (is_deleted company_id urls db r.feed_id)) _ _
          (λ kept. (not-true _ kept, results-kept rs)) (λ gone. results-kept rs)
