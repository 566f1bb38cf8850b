-- ===== src/Backend/Partitions/Stored.antt =====
-- What a repartitioning of the articles may rely on, and lemmas on its first steps: the links of a
-- default partition that is cleared, and the list of the weeks.
use manifeed.Common.{
  ◌≡◌, refl, sym, ◌∙◌, ap, arith, inl, inr, ◌*◌, ◌/◌, ◌≤◌, ◌<◌, ◌==◌, ==_iff, ==_refl, ltb, leb, ℕ,
  true, false, not, ◌&&◌, Bool-cases, List, [], ◌∷◌, All, Instant, String, str_eq, eq_iff, any,
  count, filter, sort_by, any-sort_by, if-cases, epoch,
}
use manifeed.Db.{Source, SourceFeed}
use manifeed.Backend.Partitions.Tables.{Partition, all_rows, in_range, week, week_start}
use manifeed.Backend.Partitions.{
  Storage, source_date, link_date, same_source, same_url, same_link, is_source_of, refers_to,
  delete_links, distinct_weeks,
}
use manifeed.Backend.Partitions.Weeks.{IsWeekly, IsWeekStart}

-- A storage as PostgreSQL keeps it: weekly partitions that are named by their start, rows where their
-- date belongs, the links' weeks among the articles', unique keys, and links that refer to something.
pub record IsStored (strftime : Instant → String) (s : Storage) : Type 0 where
  pub source_weeks : All (IsWeekly strftime) s.sources.partitions
  pub link_weeks : All (IsWeekly strftime) s.links.partitions
  pub paired :
      All (λ q. any (λ p. p.start == q.start) s.sources.partitions ≡ true) s.links.partitions
  pub sources_routed :
      All (λ r. any (in_range source_date r) s.sources.partitions ≡ false) s.sources.default_rows
  pub links_placed : All (λ q. All (λ l. in_range link_date l q ≡ true) q.rows) s.links.partitions
  pub source_keys : (x : Source) → count (same_source x) (all_rows s.sources) ≤ 1
  pub source_urls : (x : Source) → count (same_url x) (all_rows s.sources) ≤ 1
  pub link_keys : (x : SourceFeed) → count (same_link x) (all_rows s.links) ≤ 1
  pub references :
      All
        (λ l. (refers_to (all_rows s.sources) l && any (λ f. f == l.feed_id) s.feed_ids) ≡ true)
        s.links.default_rows

module _ (strftime : Instant → String) where
  -- The articles' partition with the bounds of a link's takes the link's date.
  within :
      (ps : List (Partition Source)) (q : Partition SourceFeed) (r : Source) (l : SourceFeed)
      → All (IsWeekly strftime) ps
      → IsWeekly strftime q
      → any (λ p. p.start == q.start) ps ≡ true
      → in_range link_date l q ≡ true
      → r.published_at ≡ l.published_at
      → any (in_range source_date r) ps ≡ true
  within [] q r l _ _ h _ _ = cc
  within (p ∷ ps) q r l ((j, e, f, _), weekly) (k, e', f', n) h i d =
      elim (Bool-cases (p.start == q.start)) [
        | inl same ↦ ground (arith, same, e, f, e', f', i, d)
        | inr other ↦
            ground (arith, within ps q r l weekly (k, e', f', n) (ground (arith, h, other)) i d)
      ]

  module _ (ps : List (Partition Source)) (weekly : All (IsWeekly strftime) ps) where
    unreferenced :
        (q : Partition SourceFeed) (l : SourceFeed) (rs : List Source)
        → IsWeekly strftime q
        → any (λ p. p.start == q.start) ps ≡ true
        → in_range link_date l q ≡ true
        → All (λ r. any (in_range source_date r) ps ≡ false) rs
        → refers_to rs l ≡ false
    unreferenced q l [] _ _ _ _ = refl
    unreferenced q l (r ∷ rs) w h i (out, routed) = elim (Bool-cases (is_source_of l r)) [
      | inl e ↦ absurd (ground (arith, out, within ps q r l weekly w h i (ground (arith, e))))
      | inr e ↦ ground (arith, e, unreferenced q l rs w h i routed)
    ]

    kept-rows :
        (q : Partition SourceFeed) (ls : List SourceFeed) (rs : List Source)
        → IsWeekly strftime q
        → any (λ p. p.start == q.start) ps ≡ true
        → All (λ l. in_range link_date l q ≡ true) ls
        → All (λ r. any (in_range source_date r) ps ≡ false) rs
        → filter (λ l. not (refers_to rs l)) ls ≡ ls
    kept-rows q [] rs _ _ _ _ = refl
    kept-rows q (l ∷ ls) rs w h (i, is) routed =
        rw (unreferenced q l rs w h i routed) (ap (λ k. l ∷ k) (kept-rows q ls rs w h is routed))

    pub nothing_deleted :
        (qs : List (Partition SourceFeed)) (rs : List Source)
        → All (IsWeekly strftime) qs
        → All (λ q. any (λ p. p.start == q.start) ps ≡ true) qs
        → All (λ q. All (λ l. in_range link_date l q ≡ true) q.rows) qs
        → All (λ r. any (in_range source_date r) ps ≡ false) rs
        → delete_links (refers_to rs) qs ≡ qs
    nothing_deleted [] rs _ _ _ _ = refl
    nothing_deleted (q ∷ qs) rs (w, ws) (h, hs) (i, is) routed = λ j.
        (record q { rows = kept-rows q q.rows rs w h i routed j })
        ∷ nothing_deleted qs rs ws hs is routed j

pub distinct-starts : (ss : List Source) → All IsWeekStart (distinct_weeks ss)
distinct-starts [] = tt
distinct-starts (s ∷ ss) =
    if-cases (All IsWeekStart) (any (λ w. w == week_start s.published_at) (distinct_weeks ss)) _ _
      (λ _. distinct-starts ss) (λ _. ((s.published_at / week, refl), distinct-starts ss))

distinct-any :
    (d : Instant) (ss : List Source)
    → any (λ s. s.published_at == d) ss ≡ true
    → any (λ w. w == week_start d) (distinct_weeks ss) ≡ true
distinct-any d [] h = cc
distinct-any d (s ∷ ss) h = elim (Bool-cases (s.published_at == d)) [
  | inl e ↦
      let same : week_start s.published_at ≡ week_start d =
        ap week_start ((==_iff s.published_at d).0 e) in
      if-cases (λ ws. any (λ w. w == week_start d) ws ≡ true)
        (any (λ w. w == week_start s.published_at) (distinct_weeks ss)) _ _ (λ f. rw same at f)
        (λ _. rw (ap (λ w. w == week_start d) same) (rw (==_refl (week_start d)) refl))
  | inr e ↦
      let rest = distinct-any d ss (ground (arith, h, e)) in
      if-cases (λ ws. any (λ w. w == week_start d) ws ≡ true)
        (any (λ w. w == week_start s.published_at) (distinct_weeks ss)) _ _ (λ _. rest)
        (λ _. ground (arith, rest))
]

late-any :
    (d : Instant) (ss : List Source)
    → any (λ s. s.published_at == d) ss ≡ true
    → epoch < d
    → any (λ s. s.published_at == d) (filter (λ s. ltb epoch s.published_at) ss) ≡ true
late-any d [] h _ = cc
late-any d (s ∷ ss) h late = ground (arith, h, late, late-any d ss)

-- The week of each article later than 1970 is in the list.
pub week-listed :
    (d : Instant) (ss : List Source)
    → any (λ s. s.published_at == d) ss ≡ true
    → epoch < d
    → any
        (λ w. w == week_start d)
        (sort_by leb (distinct_weeks (filter (λ s. ltb epoch s.published_at) ss)))
      ≡ true
week-listed d ss h late =
    any-sort_by leb (λ w. w == week_start d)
      (distinct_weeks (filter (λ s. ltb epoch s.published_at) ss))
    ∙ distinct-any d (filter (λ s. ltb epoch s.published_at) ss) (late-any d ss h late)

-- Where the names tell the weeks apart, the partition that is named by a row's week takes the row.
module _ (strftime : Instant → String)
    (told_apart : (j k : ℕ) → strftime (j * week) ≡ strftime (k * week) → j ≡ k) {A : Type 0}
    (date : A → Instant) where
  pub named-takes :
      (r : A) (ps : List (Partition A))
      → All (IsWeekly strftime) ps
      → any (λ p. str_eq p.suffix (strftime (week_start (date r)))) ps ≡ true
      → any (in_range date r) ps ≡ true
  named-takes r [] _ h = cc
  named-takes r (p ∷ ps) ((j, e, f, name), weekly) h =
      elim (Bool-cases (str_eq p.suffix (strftime (week_start (date r))))) [
        | inl same ↦
            let k : j ≡ date r / week =
              told_apart j (date r / week) (sym name ∙ (eq_iff p.suffix _).0 same) in
            ground (arith, e, f, k)
        | inr other ↦ ground (arith, named-takes r ps weekly (ground (arith, h, other)))
      ]
