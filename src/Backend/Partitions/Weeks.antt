-- ===== src/Backend/Partitions/Weeks.antt =====
-- The weekly partitions that a repartitioning creates.
use mathlib.Core.Path.{subst}
use manifeed.Common.{
  ◌≡◌, refl, ◌∙◌, ap, arith, inl, inr, ◌+◌, ◌*◌, ◌==◌, ==_iff, ltb, ℕ, Bool, true, false, ◌&&◌,
  Bool-cases, List, [], ◌∷◌, All, Instant, String, str_eq, eq_iff, eq_refl, any, Outcome, ok, err,
  Error,
}
use manifeed.Backend.Partitions.Tables.{
  Partition, Table, all_rows, week, table_exists, overlaps, new_partition,
  create_partition_if_missing, is_last_week,
}
use manifeed.Backend.Partitions.{
  Storage, Created, create_weekly_partition_pair, create_partitions, source_date, link_date, one_if,
}

abbrev pub IsWeekStart : Instant → Type 0
IsWeekStart w = (k : ℕ) × (w ≡ k * week)

module _ (strftime : Instant → String) where
  -- The partition of the k-th week.
  abbrev pub IsWeekly : {A : Type 0} → Partition A → Type 0
  IsWeekly p =
      (k : ℕ) × (p.start ≡ k * week) × (p.stop ≡ k * week + week) × (p.suffix ≡ strftime (k * week))

  apart :
      (j k start stop : ℕ)
      → start ≡ j * week
      → stop ≡ j * week + week
      → (j == k) ≡ false
      → (ltb start (k * week + week) && ltb (k * week) stop) ≡ false
  apart j k start stop e f n = ground (arith, e, f, n)

  no_overlap :
      {A : Type 0} (k : ℕ) (ps : List (Partition A))
      → All IsWeekly ps
      → any (λ p. str_eq p.suffix (strftime (k * week))) ps ≡ false
      → any (overlaps (k * week) (k * week + week)) ps ≡ false
  no_overlap k [] _ _ = refl
  no_overlap k (p ∷ ps) ((j, e, f, name), weekly) h = elim (Bool-cases (j == k)) [
    | inl same ↦ absurd (
        ground (
          arith,
          h,
          eq_iff p.suffix (strftime (k * week)),
          name ∙ ap (λ n. strftime (n * week)) ((==_iff j k).0 same),
        ))
    | inr other ↦
        ground
          (arith, apart j k p.start p.stop e f other, no_overlap k ps weekly (ground (arith, h)))
  ]

  -- What comes of creating the partition of the k-th week in a table whose default partition is empty.
  abbrev pub Creates : {A : Type 0} → ℕ → Table A → Outcome (Table A × Bool) → Type 0
  Creates {A} k t m =
      (t' : Table A) × (made : Bool) × (m ≡ ok (t', made))
      × (all_rows t' ≡ all_rows t)
      × (t'.default_rows ≡ [])
      × All IsWeekly t'.partitions
      × (table_exists (strftime (k * week)) t' ≡ true)
      × ((suffix : String) → table_exists suffix t ≡ true → table_exists suffix t' ≡ true)

  create_partition-Creates :
      {A : Type 0} (date : A → Instant) (k : ℕ) (t : Table A)
      → t.default_rows ≡ []
      → All IsWeekly t.partitions
      → Creates k t (create_partition_if_missing strftime date (k * week) t)
  unfolding create_partition_if_missing
  create_partition-Creates date k t empty weekly =
      elim (Bool-cases (table_exists (strftime (k * week)) t)) [
        | inl e ↦ (
          t,
          false,
          rw (e, create_partition_if_missing) refl,
          refl,
          empty,
          weekly,
          e,
          λ suffix h. h,
        )
        | inr e ↦ (
          record t { partitions = new_partition strftime (k * week) ∷ t.partitions },
          true,
          rw (e, no_overlap k t.partitions weekly e, empty, create_partition_if_missing) refl,
          refl,
          empty,
          ((k, refl, refl, refl), weekly),
          ground (arith, eq_refl (strftime (k * week))),
          λ suffix h. ground (arith, h),
        )
      ]

  -- Both default partitions are empty, and the others are weekly.
  pub record IsOpen (s : Storage) : Type 0 where
    pub no_sources : s.sources.default_rows ≡ []
    pub no_links : s.links.default_rows ≡ []
    pub source_weeks : All IsWeekly s.sources.partitions
    pub link_weeks : All IsWeekly s.links.partitions

  abbrev pub HasWeek : Storage → Instant → Type 0
  HasWeek s w =
      (table_exists (strftime w) s.sources ≡ true) × (table_exists (strftime w) s.links ≡ true)

  -- The rows of a storage stay, and its partitions.
  pub record Opens (s : Storage) (ws : List Instant) (t : Storage) : Type 0 where
    pub same_sources : all_rows t.sources ≡ all_rows s.sources
    pub same_links : all_rows t.links ≡ all_rows s.links
    pub same_feeds : t.feed_ids ≡ s.feed_ids
    pub opened : IsOpen t
    pub weeks : All (HasWeek t) ws
    pub grows : (w : Instant) → HasWeek s w → HasWeek t w

  pair-Opens :
      (k : ℕ) (c : Created)
      → is_last_week (k * week) ≡ false
      → IsOpen c.0
      → (d : Created) × (create_weekly_partition_pair strftime (k * week) c ≡ ok d)
        × Opens c.0 (k * week ∷ []) d.0
  unfolding create_weekly_partition_pair
  pair-Opens k (s, (m, n)) fits i =
      let (sources, made, e, rows, none, weekly, known, grown) =
        create_partition-Creates source_date k s.sources i.no_sources i.source_weeks in
      let (links, made', e', rows', none', weekly', known', grown') =
        create_partition-Creates link_date k s.links i.no_links i.link_weeks in
      (
        (record s { sources = sources; links = links }, (m + one_if made, n + one_if made')),
        rw (fits, e, e', create_weekly_partition_pair) refl,
        record {
          same_sources = rows;
          same_links = rows';
          same_feeds = refl;
          opened = record {
            no_sources = none;
            no_links = none';
            source_weeks = weekly;
            link_weeks = weekly';
          };
          weeks = ((known, known'), tt);
          grows = λ w h. (grown (strftime w) h.0, grown' (strftime w) h.1);
        },
      )

  pub create_partitions-Opens :
      (ws : List Instant) (c : Created)
      → All IsWeekStart ws
      → any is_last_week ws ≡ false
      → IsOpen c.0
      → (d : Created) × (create_partitions strftime ws c ≡ ok d) × Opens c.0 ws d.0
  unfolding create_partitions
  create_partitions-Opens [] c _ _ i = (
    c,
    refl,
    record {
      same_sources = refl;
      same_links = refl;
      same_feeds = refl;
      opened = i;
      weeks = tt;
      grows = λ w h. h;
    },
  )
  create_partitions-Opens (w ∷ ws) c ((k, e), starts) fits i =
      let head : is_last_week (k * week) ≡ false =
        subst (λ v. is_last_week v ≡ false) e (ground (arith, fits)) in
      let (d, made, first) = pair-Opens k c head i in
      let (f, all_made, rest) =
        create_partitions-Opens ws d starts (ground (arith, fits)) first.opened in
      (
        f,
        rw (e, made, create_partitions) all_made,
        record {
          same_sources = rest.same_sources ∙ first.same_sources;
          same_links = rest.same_links ∙ first.same_links;
          same_feeds = rest.same_feeds ∙ first.same_feeds;
          opened = rest.opened;
          weeks = (rest.grows w (rw e (first.weeks.0)), rest.weeks);
          grows = λ v h. rest.grows v (first.grows v h);
        },
      )

  -- The last week of the year 9999 raises, whatever was created before.
  pub create_partitions-overflow :
      (ws : List Instant) (c : Created)
      → All IsWeekStart ws
      → any is_last_week ws ≡ true
      → IsOpen c.0
      → create_partitions strftime ws c ≡ err Error.overflow_error
  unfolding create_partitions
  create_partitions-overflow [] c _ h i = cc
  create_partitions-overflow (w ∷ ws) c ((k, e), starts) h i = elim (Bool-cases (is_last_week w)) [
    | inl last ↦ rw (last, create_partitions, create_weekly_partition_pair) refl
    | inr fits ↦
        let (d, made, first) = pair-Opens k c (subst (λ v. is_last_week v ≡ false) e fits) i in
        rw (e, made, create_partitions)
          (create_partitions-overflow ws d starts (ground (arith, h, fits)) first.opened)
  ]
