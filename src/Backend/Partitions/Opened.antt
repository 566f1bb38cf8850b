-- ===== src/Backend/Partitions/Opened.antt =====
-- The storage between the deletion and the restoring of a repartitioning, with the weeks of its
-- articles.
use mathlib.Core.Path.{subst}
use manifeed.Common.{
  ◌≡◌, refl, ◌∙◌, arith, ◌⊎◌, inl, inr, ◌*◌, leb, ◌≤◌, ◌<◌, ◌==◌, ==_iff, ltb, ℕ, true, Bool-cases,
  List, [], ◌∷◌, ◌++◌, All, Instant, String, str_eq, epoch, any, filter, count-append, All-sort_by,
}
use manifeed.Db.{Source, SourceFeed}
use manifeed.Backend.Partitions.Tables.{
  Partition, partition_rows, all_rows, in_range, week, week_start,
}
use manifeed.Backend.Partitions.{
  distinct_weeks, Storage, source_date, link_date, prepare_default_partition_buffers,
  clear_default_partitions, list_week_starts_for_all_sources,
}
use manifeed.Backend.Partitions.Restored.{any-count}
use manifeed.Backend.Partitions.Weeks.{IsWeekly, IsOpen, Opens, HasWeek, IsWeekStart}
use manifeed.Backend.Partitions.Stored.{
  IsStored, nothing_deleted, distinct-starts, week-listed, named-takes,
}

abbrev pub IsOldSource : Source → Type 0
IsOldSource s = s.published_at ≤ epoch

abbrev pub IsOldLink : SourceFeed → Type 0
IsOldLink l = l.published_at ≤ epoch

module _ (strftime : Instant → String)
    (told_apart : (j k : ℕ) → strftime (j * week) ≡ strftime (k * week) → j ≡ k) (s : Storage)
    (stored : IsStored strftime s) where
  unfoldable pub cleared : Storage
  cleared = record s {
    sources = record s.sources { default_rows = [] };
    links = record s.links { default_rows = [] };
  }

  pub cleared_lem : clear_default_partitions s ≡ cleared
  unfolding clear_default_partitions cleared
  cleared_lem = λ i. record s {
    sources = record s.sources { default_rows = [] };
    links = record {
      partitions =
          nothing_deleted strftime s.sources.partitions stored.source_weeks s.links.partitions
            s.sources.default_rows stored.link_weeks stored.paired stored.links_placed
            stored.sources_routed i;
      default_rows = [];
    };
  }

  pub cleared-IsOpen : IsOpen strftime cleared
  unfolding cleared
  cleared-IsOpen = record {
    no_sources = refl;
    no_links = refl;
    source_weeks = stored.source_weeks;
    link_weeks = stored.link_weeks;
  }

  unfoldable pub weeks : List Instant
  weeks = list_week_starts_for_all_sources cleared (prepare_default_partition_buffers s)

  abbrev late_rows : List Source
  late_rows =
      filter (λ r. ltb epoch r.published_at)
        ((partition_rows s.sources.partitions ++ []) ++ s.sources.default_rows)

  pub weeks-starts : All IsWeekStart weeks
  unfolding weeks list_week_starts_for_all_sources cleared
  weeks-starts = All-sort_by leb IsWeekStart (distinct_weeks late_rows) (distinct-starts late_rows)

  -- A date of an article is not later than 1970, or its week is there behind the creation.
  module _ (t : Storage) (opens : Opens strftime cleared weeks t) where
    known-week :
        (d : Instant)
        → any (λ r. r.published_at == d) (all_rows s.sources) ≡ true
        → epoch < d
        → HasWeek strftime t (week_start d)
    unfolding weeks list_week_starts_for_all_sources cleared
    known-week d h late = pick weeks opens.weeks (week-listed d _ (everywhere ∙ h) late)
      where
        pick :
            (ws : List Instant)
            → All (HasWeek strftime t) ws
            → any (λ w. w == week_start d) ws ≡ true
            → HasWeek strftime t (week_start d)
        pick [] _ e = cc
        pick (w ∷ ws) (k, ks) e = elim (Bool-cases (w == week_start d)) [
          | inl same ↦ subst (HasWeek strftime t) ((==_iff w (week_start d)).0 same) k
          | inr other ↦ pick ws ks (ground (arith, e, other))
        ]

        everywhere :
            any
              (λ r. r.published_at == d)
              ((partition_rows s.sources.partitions ++ []) ++ s.sources.default_rows)
            ≡ any (λ r. r.published_at == d) (all_rows s.sources)
        everywhere =
            any-count (λ r. r.published_at == d) _ _
              (omega (
                arith,
                count-append (λ (r : Source). r.published_at == d)
                    (partition_rows s.sources.partitions ++ []) s.sources.default_rows,
                count-append (λ (r : Source). r.published_at == d)
                    (partition_rows s.sources.partitions) [],
                count-append (λ (r : Source). r.published_at == d)
                    (partition_rows s.sources.partitions) s.sources.default_rows,
              ))

    placed :
        {A : Type 0} (date : A → Instant) (r : A) (ps : List (Partition A))
        → All (IsWeekly strftime) ps
        → (epoch < date r → any (λ p. str_eq p.suffix (strftime (week_start (date r)))) ps ≡ true)
        → (any (in_range date r) ps ≡ true) ⊎ (date r ≤ epoch)
    placed date r ps weekly h = elim (Bool-cases (ltb epoch (date r))) [
      | inl late ↦ inl (named-takes strftime told_apart date r ps weekly (h (ground (arith, late))))
      | inr early ↦ inr (ground (arith, early))
    ]

    pub sources-placed :
        (rs : List Source)
        → All (λ r. any (λ q. q.published_at == r.published_at) (all_rows s.sources) ≡ true) rs
        → All (λ r. (any (in_range source_date r) t.sources.partitions ≡ true) ⊎ IsOldSource r) rs
    sources-placed [] _ = tt
    sources-placed (r ∷ rs) (h, hs) = (
      placed source_date r t.sources.partitions opens.opened.source_weeks
          (λ late. (known-week r.published_at h late).0),
      sources-placed rs hs,
    )

    pub links-placed :
        (ls : List SourceFeed)
        → All (λ l. any (λ q. q.published_at == l.published_at) (all_rows s.sources) ≡ true) ls
        → All (λ l. (any (in_range link_date l) t.links.partitions ≡ true) ⊎ IsOldLink l) ls
    links-placed [] _ = tt
    links-placed (l ∷ ls) (h, hs) = (
      placed link_date l t.links.partitions opens.opened.link_weeks
          (λ late. (known-week l.published_at h late).1),
      links-placed ls hs,
    )
