-- ===== src/Feeds/Grouping.antt =====
-- The buckets of the companies, against the list of the feeds.
use mathlib.Core.List.{append-nil, append_assoc}
use mathlib.Core.Path.{ap₂}
use manifeed.Common.{
  ℕ, suc, ◌+◌, ◌≡◌, ◌↔◌, refl, sym, ap, ◌∙◌, Bool, true, false, List, [], ◌∷◌, ◌++◌, arith, any,
  filter, count, count-append, length, length-append, filter-append, if◌then◌else◌, Bool-cases,
  if-cases, inl, inr,
}
use manifeed.Feeds.{
  ScrapeFeed, CompanyKey, company, feed, key_eq, resolve_company_key, Buckets, add_feed, group_from,
  group_feeds_by_company,
}

pub key_eq_iff : (a b : CompanyKey) → (key_eq a b ≡ true) ↔ (a ≡ b)
key_eq_iff (company a) (company b) = ground arith
key_eq_iff (company a) (feed b) = ground arith
key_eq_iff (feed a) (company b) = ground arith
key_eq_iff (feed a) (feed b) = ground arith

pub key_eq_refl : (a : CompanyKey) → key_eq a a ≡ true
key_eq_refl a = (key_eq_iff a a).1 refl

abbrev pub has_key : CompanyKey → ScrapeFeed → Bool
has_key k f = key_eq (resolve_company_key f) k

abbrev pub bucket_key : CompanyKey → CompanyKey × List ScrapeFeed → Bool
bucket_key k b = key_eq b.0 k

-- The feeds of a company in the buckets.
abbrev pub bucket : CompanyKey → Buckets → List ScrapeFeed
bucket k [] = []
bucket k ((j, fs) ∷ bs) = if key_eq j k then fs else bucket k bs

-- A bucket holds feeds of its company only, and no company has two.
abbrev pub IsGrouped : Buckets → Type 0
IsGrouped [] = Unit
IsGrouped ((k, fs) ∷ bs) =
    (filter (has_key k) fs ≡ fs) × (any (bucket_key k) bs ≡ false) × IsGrouped bs

-- All feeds in the buckets.
abbrev pub pending : Buckets → ℕ
pending [] = 0
pending ((_, fs) ∷ bs) = length fs + pending bs

not-key_eq : (i j k : CompanyKey) → key_eq i j ≡ true → key_eq i k ≡ false → key_eq k j ≡ false
not-key_eq i j k e other = ground (arith, key_eq_iff i j, key_eq_iff k j, key_eq_iff i k)

bucket-add_feed :
    (j k : CompanyKey) (f : ScrapeFeed) (bs : Buckets)
    → bucket j (add_feed k f bs) ≡ bucket j bs ++ (if key_eq k j then f ∷ [] else [])
unfolding add_feed
bucket-add_feed j k f [] = refl
bucket-add_feed j k f ((i, fs) ∷ bs) = elim (Bool-cases (key_eq i k)) [
  | inl same ↦ rw same (
      rw (← (key_eq_iff i k).0 same) (elim (Bool-cases (key_eq i j)) [
        | inl e ↦ rw e
        | inr e ↦ rw e (sym (append-nil (bucket j bs)))
      ]))
  | inr other ↦ rw other (elim (Bool-cases (key_eq i j)) [
    | inl e ↦ rw (e, not-key_eq i j k e other) (sym (append-nil fs))
    | inr e ↦ rw e (bucket-add_feed j k f bs)
  ])
]

any-add_feed :
    (j k : CompanyKey) (f : ScrapeFeed) (bs : Buckets)
    → any (bucket_key j) (add_feed k f bs) ≡ (if any (bucket_key j) bs then true else key_eq k j)
unfolding add_feed
any-add_feed j k f [] = ground arith
any-add_feed j k f ((i, fs) ∷ bs) =
    ground (arith, any-add_feed j k f bs, key_eq_iff i k, key_eq_iff k j, key_eq_iff i j)

pending-add_feed :
    (k : CompanyKey) (f : ScrapeFeed) (bs : Buckets) → pending (add_feed k f bs) ≡ suc (pending bs)
unfolding add_feed
pending-add_feed k f [] = omega arith
pending-add_feed k f ((i, fs) ∷ bs) =
    ground (arith, pending-add_feed k f bs, length-append fs (f ∷ []))

own_feed :
    (i : CompanyKey) (f : ScrapeFeed)
    → i ≡ resolve_company_key f
    → filter (has_key i) (f ∷ []) ≡ f ∷ []
own_feed i f e = rw (e, key_eq_refl)

not-key_eq_sym : (i k : CompanyKey) → key_eq i k ≡ false → key_eq k i ≡ false
not-key_eq_sym i k other = ground (arith, key_eq_iff i k, key_eq_iff k i)

add_feed-IsGrouped :
    (f : ScrapeFeed) (bs : Buckets)
    → IsGrouped bs
    → IsGrouped (add_feed (resolve_company_key f) f bs)
unfolding add_feed
add_feed-IsGrouped f [] h = (rw (key_eq_refl (resolve_company_key f)), refl, tt)
add_feed-IsGrouped f ((i, fs) ∷ bs) (own, new, h) =
    if-cases IsGrouped (key_eq i (resolve_company_key f)) ((i, fs ++ f ∷ []) ∷ bs)
      ((i, fs) ∷ add_feed (resolve_company_key f) f bs)
      (λ same. (
        filter-append (has_key i) fs (f ∷ [])
            ∙ ap₂ ◌++◌ own (own_feed i f ((key_eq_iff i (resolve_company_key f)).0 same)),
        new,
        h,
      ))
      (λ other. (
        own,
        any-add_feed i (resolve_company_key f) f bs
            ∙ (rw new (not-key_eq_sym i (resolve_company_key f) other)),
        add_feed-IsGrouped f bs h,
      ))

bucket-group_from :
    (j : CompanyKey) (fs : List ScrapeFeed) (bs : Buckets)
    → bucket j (group_from bs fs) ≡ bucket j bs ++ filter (has_key j) fs
unfolding group_from
bucket-group_from j [] bs = sym (append-nil (bucket j bs))
bucket-group_from j (f ∷ fs) bs =
    bucket-group_from j fs (add_feed (resolve_company_key f) f bs)
    ∙ ap (λ l. l ++ filter (has_key j) fs) (bucket-add_feed j (resolve_company_key f) f bs)
    ∙ append_assoc (bucket j bs) (if has_key j f then f ∷ [] else []) (filter (has_key j) fs)
    ∙ ap (λ l. bucket j bs ++ l) (cons-if (has_key j f) f (filter (has_key j) fs))
  where
    cons-if :
        (b : Bool) (x : ScrapeFeed) (xs : List ScrapeFeed)
        → (if b then x ∷ [] else []) ++ xs ≡ (if b then x ∷ xs else xs)
    cons-if true x xs = refl
    cons-if false x xs = refl

group_from-IsGrouped :
    (fs : List ScrapeFeed) (bs : Buckets) → IsGrouped bs → IsGrouped (group_from bs fs)
unfolding group_from
group_from-IsGrouped [] bs h = h
group_from-IsGrouped (f ∷ fs) bs h =
    group_from-IsGrouped fs (add_feed (resolve_company_key f) f bs) (add_feed-IsGrouped f bs h)

pending-group_from :
    (fs : List ScrapeFeed) (bs : Buckets) → pending (group_from bs fs) ≡ pending bs + length fs
unfolding group_from
pending-group_from [] bs = omega arith
pending-group_from (f ∷ fs) bs = omega (
  arith,
  pending-group_from fs (add_feed (resolve_company_key f) f bs),
  pending-add_feed (resolve_company_key f) f bs,
)

-- Grouping is a partition: no company has two buckets, every bucket holds feeds of its company
-- only, the bucket of a company is its feeds in their order, and no feed is lost.
pub group_feeds_by_company-IsGrouped :
    (fs : List ScrapeFeed)
    → IsGrouped (group_feeds_by_company fs)
      × ((k : CompanyKey) → bucket k (group_feeds_by_company fs) ≡ filter (has_key k) fs)
      × (pending (group_feeds_by_company fs) ≡ length fs)
unfolding group_feeds_by_company
group_feeds_by_company-IsGrouped fs = (
  group_from-IsGrouped fs [] tt,
  λ k. bucket-group_from k fs [],
  omega (arith, pending-group_from fs []),
)

module _ (p : ScrapeFeed → Bool) where
  -- The feeds in the buckets that meet a test.
  abbrev pub total : Buckets → ℕ
  total [] = 0
  total ((_, fs) ∷ bs) = count p fs + total bs

  total-add_feed :
      (k : CompanyKey) (f : ScrapeFeed) (bs : Buckets)
      → total (add_feed k f bs) ≡ total bs + (if p f then 1 else 0)
  unfolding add_feed
  total-add_feed k f [] = ground arith
  total-add_feed k f ((i, fs) ∷ bs) =
      ground (arith, total-add_feed k f bs, count-append p fs (f ∷ []))

  total-group_from :
      (fs : List ScrapeFeed) (bs : Buckets) → total (group_from bs fs) ≡ total bs + count p fs
  unfolding group_from
  total-group_from [] bs = omega arith
  total-group_from (f ∷ fs) bs = omega (
    arith,
    total-group_from fs (add_feed (resolve_company_key f) f bs),
    total-add_feed (resolve_company_key f) f bs,
  )

  pub total-group_feeds : (fs : List ScrapeFeed) → total (group_feeds_by_company fs) ≡ count p fs
  unfolding group_feeds_by_company
  total-group_feeds fs = omega (arith, total-group_from fs [])
