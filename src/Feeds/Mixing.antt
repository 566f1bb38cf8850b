-- ===== src/Feeds/Mixing.antt =====
-- The mixing of the companies of a job: its loop, and its result against the list of the feeds.
use manifeed.Common.{
  ℕ, zero, suc, ◌+◌, ◌<◌, ◌≡◌, refl, sym, ap, ◌∙◌, Bool, true, false, some, List, [], ◌∷◌, ◌++◌,
  arith, any, filter, count, count-append, length, length-filter, count-le-length, filter-append,
  is_nil, leb, Bool-cases, inl, inr,
}
use manifeed.Feeds.{
  ScrapeFeed, CompanyKey, key_eq, resolve_company_key, Buckets, group_feeds_by_company, mix_round,
  mix_rounds, mix_feeds_by_company,
}
use manifeed.Feeds.Grouping.{
  key_eq_iff, has_key, bucket_key, bucket, IsGrouped, pending, total, total-group_feeds,
  group_feeds_by_company-IsGrouped,
}

filter-own :
    (p : ScrapeFeed → Bool) (f : ScrapeFeed) (fs : List ScrapeFeed)
    → filter p (f ∷ fs) ≡ f ∷ fs
    → (p f ≡ true) × (filter p fs ≡ fs)
filter-own p f fs h = elim (Bool-cases (p f)) [
  | inl e ↦ (e, tail-path (rw e at h))
  | inr e ↦ absurd (omega (arith, ap length (rw e at h), length-filter p fs, count-le-length p fs))
]
  where
    tail-path : f ∷ filter p fs ≡ f ∷ fs → filter p fs ≡ fs
    tail-path q = cc

any-mix_round :
    (k : CompanyKey) (bs : Buckets) → any (bucket_key k) (mix_round bs).1 ≡ any (bucket_key k) bs
unfolding mix_round
any-mix_round k [] = refl
any-mix_round k ((j, []) ∷ bs) = ground (arith, any-mix_round k bs)
any-mix_round k ((j, f ∷ fs) ∷ bs) = ground (arith, any-mix_round k bs)

mix_round-IsGrouped : (bs : Buckets) → IsGrouped bs → IsGrouped (mix_round bs).1
unfolding mix_round
mix_round-IsGrouped [] h = tt
mix_round-IsGrouped ((j, []) ∷ bs) (own, new, h) =
    (refl, any-mix_round j bs ∙ new, mix_round-IsGrouped bs h)
mix_round-IsGrouped ((j, f ∷ fs) ∷ bs) (own, new, h) =
    ((filter-own (has_key j) f fs own).1, any-mix_round j bs ∙ new, mix_round-IsGrouped bs h)

-- Each pass takes what it removes.
mix_round-pending : (bs : Buckets) → length (mix_round bs).0 + pending (mix_round bs).1 ≡ pending bs
unfolding mix_round
mix_round-pending [] = omega arith
mix_round-pending ((j, []) ∷ bs) = omega (arith, mix_round-pending bs)
mix_round-pending ((j, f ∷ fs) ∷ bs) = omega (arith, mix_round-pending bs)

other_key :
    (j k : CompanyKey) (f : ScrapeFeed)
    → has_key j f ≡ true
    → key_eq j k ≡ false
    → has_key k f ≡ false
other_key j k f e other = ground (
  arith,
  key_eq_iff (resolve_company_key f) j,
  key_eq_iff (resolve_company_key f) k,
  key_eq_iff j k,
)

-- A pass over buckets of other companies takes no feed of this one.
mix_round-absent :
    (k : CompanyKey) (bs : Buckets)
    → IsGrouped bs
    → any (bucket_key k) bs ≡ false
    → (filter (has_key k) (mix_round bs).0 ≡ []) × (bucket k (mix_round bs).1 ≡ [])
unfolding mix_round
mix_round-absent k [] h e = (refl, refl)
mix_round-absent k ((j, []) ∷ bs) (own, new, h) e = ground (arith, mix_round-absent k bs h)
mix_round-absent k ((j, f ∷ fs) ∷ bs) (own, new, h) e =
    ground (arith, mix_round-absent k bs h, other_key j k f (filter-own (has_key j) f fs own).0)

-- A pass takes the first feed of each company that has one.
mix_round-bucket :
    (k : CompanyKey) (bs : Buckets)
    → IsGrouped bs
    → filter (has_key k) (mix_round bs).0 ++ bucket k (mix_round bs).1 ≡ bucket k bs
unfolding mix_round
mix_round-bucket k [] h = refl
mix_round-bucket k ((j, []) ∷ bs) (own, new, h) = elim (Bool-cases (key_eq j k)) [
  | inl e ↦ rw e (
      rw
        (mix_round-absent k bs h
          (ap (λ x. any (bucket_key x) bs) (sym ((key_eq_iff j k).0 e)) ∙ new)).0
        refl)
  | inr e ↦ rw e (mix_round-bucket k bs h)
]
mix_round-bucket k ((j, f ∷ fs) ∷ bs) (own, new, h) = elim (Bool-cases (key_eq j k)) [
  | inl e ↦
      let same = (key_eq_iff j k).0 e in
      let mine : has_key k f ≡ true =
        ap (λ x. has_key x f) (sym same) ∙ (filter-own (has_key j) f fs own).0 in
      rw (e, mine)
        (rw (mix_round-absent k bs h (ap (λ x. any (bucket_key x) bs) (sym same) ∙ new)).0 refl)
  | inr e ↦ rw (e, other_key j k f (filter-own (has_key j) f fs own).0 e) (mix_round-bucket k bs h)
]

no_pending : (k : CompanyKey) (bs : Buckets) → pending bs ≡ 0 → bucket k bs ≡ []
no_pending k [] h = refl
no_pending k ((j, []) ∷ bs) h = ground (arith, no_pending k bs)
no_pending k ((j, f ∷ fs) ∷ bs) h = absurd (omega arith)

nothing_taken : (bs : Buckets) → is_nil (mix_round bs).0 ≡ true → pending bs ≡ 0
unfolding mix_round
nothing_taken [] h = refl
nothing_taken ((j, []) ∷ bs) h = omega (arith, nothing_taken bs h)
nothing_taken ((j, f ∷ fs) ∷ bs) h = cc

total-mix_round :
    (p : ScrapeFeed → Bool) (bs : Buckets)
    → count p (mix_round bs).0 + total p (mix_round bs).1 ≡ total p bs
unfolding mix_round
total-mix_round p [] = omega arith
total-mix_round p ((j, []) ∷ bs) = omega (arith, total-mix_round p bs)
total-mix_round p ((j, f ∷ fs) ∷ bs) = omega (arith, total-mix_round p bs)

total-no_pending : (p : ScrapeFeed → Bool) (bs : Buckets) → pending bs ≡ 0 → total p bs ≡ 0
total-no_pending p [] h = refl
total-no_pending p ((j, []) ∷ bs) h = omega (arith, total-no_pending p bs)
total-no_pending p ((j, f ∷ fs) ∷ bs) h = absurd (omega arith)

pos-of_not_nil : (fs : List ScrapeFeed) → is_nil fs ≡ false → 0 < length fs
pos-of_not_nil [] h = cc
pos-of_not_nil (f ∷ fs) h = omega arith

-- The feeds of each company are those of `fs`, in their order, and so is every count.
pub record SameFeeds (bs : Buckets) (r : List ScrapeFeed) : Type 0 where
  pub order : (k : CompanyKey) → filter (has_key k) r ≡ bucket k bs
  pub counts : (p : ScrapeFeed → Bool) → count p r ≡ total p bs

mix_rounds-step :
    (n : ℕ) (bs : Buckets) {r : List ScrapeFeed}
    → is_nil (mix_round bs).0 ≡ false
    → mix_rounds n (mix_round bs).1 ≡ some r
    → mix_rounds (suc n) bs ≡ some ((mix_round bs).0 ++ r)
unfolding mix_rounds
mix_rounds-step n bs e h = rw (e, mix_rounds) (rw (h, mix_rounds))

mix_rounds-SameFeeds :
    (n : ℕ) (bs : Buckets)
    → IsGrouped bs
    → pending bs < n
    → (r : List ScrapeFeed) × (mix_rounds n bs ≡ some r) × SameFeeds bs r
mix_rounds-SameFeeds zero bs g h = elim h [ ]
mix_rounds-SameFeeds (suc n) bs g h = elim (Bool-cases (is_nil (mix_round bs).0)) [
  | inl e ↦ (
    [],
    unfold mix_rounds in rw (e, mix_rounds),
    record {
      order = λ k. sym (no_pending k bs (nothing_taken bs e));
      counts = λ p. sym (total-no_pending p bs (nothing_taken bs e));
    },
  )
  | inr e ↦
      let (r, step, same) =
        mix_rounds-SameFeeds n (mix_round bs).1 (mix_round-IsGrouped bs g)
          (omega (arith, mix_round-pending bs, pos-of_not_nil (mix_round bs).0 e)) in
      (
        (mix_round bs).0 ++ r,
        mix_rounds-step n bs e step,
        record {
          order = λ k.
              filter-append (has_key k) (mix_round bs).0 r
              ∙ ap (λ l. filter (has_key k) (mix_round bs).0 ++ l) (same.order k)
              ∙ mix_round-bucket k bs g;
          counts = λ p.
              omega (arith, count-append p (mix_round bs).0 r, same.counts p, total-mix_round p bs);
        },
      )
]

-- Mixing ends, whatever the feeds; its result holds every feed as often as they do, and has the
-- feeds of each company in the same order.
pub mix_feeds_by_company-total :
    (feeds : List ScrapeFeed)
    → (r : List ScrapeFeed) × (mix_feeds_by_company feeds ≡ some r)
      × ((p : ScrapeFeed → Bool) → count p r ≡ count p feeds)
      × ((k : CompanyKey) → filter (has_key k) r ≡ filter (has_key k) feeds)
unfolding mix_feeds_by_company
mix_feeds_by_company-total feeds = elim (Bool-cases (leb (length feeds) 1)) [
  | inl short ↦ (feeds, rw (short, mix_feeds_by_company), λ p. refl, λ k. refl)
  | inr long ↦
      let (grouped, buckets, all) = group_feeds_by_company-IsGrouped feeds in
      let (r, e, same) =
        mix_rounds-SameFeeds (suc (length feeds)) (group_feeds_by_company feeds) grouped
          (omega (arith, all)) in
      (
        r,
        rw (long, mix_feeds_by_company) e,
        λ p. same.counts p ∙ total-group_feeds p feeds,
        λ k. same.order k ∙ buckets k,
      )
]
