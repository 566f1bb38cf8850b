-- ===== src/Backend/Partitions/Rows.antt =====
-- Lemmas on the rows of the articles' tables: their keys, their dates, and how many there are.
use manifeed.Common.{
  ◌≡◌, refl, arith, ◌+◌, ◌==◌, ==_refl, Bool, true, List, [], ◌∷◌, ◌++◌, All, eq_refl, any, count,
  count-append, sort_by, count-sort_by,
}
use manifeed.Db.{Source, SourceFeed}
use manifeed.Backend.Partitions.Tables.{Table, partition_rows, all_rows}
use manifeed.Backend.Partitions.{same_source, same_url, same_link, refers_to}

pub same_source_refl : (r : Source) → same_source r r ≡ true
same_source_refl r = rw (==_refl r.id, ==_refl r.published_at) refl

pub same_url_refl : (r : Source) → same_url r r ≡ true
same_url_refl r = rw (eq_refl r.url, ==_refl r.published_at) refl

pub same_link_refl : (l : SourceFeed) → same_link l l ≡ true
same_link_refl l = rw (==_refl l.source_id, ==_refl l.feed_id, ==_refl l.published_at) refl

-- The rows of a table are those of its partitions, and those that were in the default one.
pub split-count :
    {A : Type 0} (before : A → A → Bool) (p : A → Bool) (t : Table A)
    → count p (sort_by before t.default_rows) + count p (partition_rows t.partitions ++ [])
      ≡ count p (all_rows t)
split-count before p t = omega (
  arith,
  count-sort_by before p t.default_rows,
  count-append p (partition_rows t.partitions) [],
  count-append p (partition_rows t.partitions) t.default_rows,
)

-- Each row finds its own date among rows that have it.
pub dates-found :
    (rs ys : List Source)
    → ((p : Source → Bool) → any p rs ≡ true → any p ys ≡ true)
    → All (λ r. any (λ q. q.published_at == r.published_at) ys ≡ true) rs
dates-found [] ys _ = tt
dates-found (r ∷ rs) ys h = (
  h (λ q. q.published_at == r.published_at) (rw (==_refl r.published_at) refl),
  dates-found rs ys (λ p e. h p (ground (arith, e))),
)

pub any-right :
    (p : Source → Bool) (xs ys : List Source) → any p ys ≡ true → any p (xs ++ ys) ≡ true
any-right p [] ys h = h
any-right p (x ∷ xs) ys h = ground (arith, any-right p xs ys h)

-- The article that a link refers to has the link's date.
pub referred-date :
    (l : SourceFeed) (ss : List Source)
    → refers_to ss l ≡ true
    → any (λ q. q.published_at == l.published_at) ss ≡ true
referred-date l [] h = cc
referred-date l (s ∷ ss) h = ground (arith, h, referred-date l ss)

pub All-imp :
    {A : Type 0} (P Q : A → Type 0) (xs : List A) → ((x : A) → P x → Q x) → All P xs → All Q xs
All-imp P Q [] f _ = tt
All-imp P Q (x ∷ xs) f (h, hs) = (f x h, All-imp P Q xs f hs)
