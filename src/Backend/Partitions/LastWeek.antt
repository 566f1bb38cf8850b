-- ===== src/Backend/Partitions/LastWeek.antt =====
-- The last week of the year 9999, whose end is no datetime, among the weeks of a repartitioning and
-- among the dates of the articles.
use manifeed.Common.{
  ◌≡◌, refl, ◌∙◌, arith, inl, inr, ◌==◌, ==_iff, ltb, leb, ◌*◌, Bool, true, Bool-cases, List, [],
  ◌∷◌, ◌++◌, Instant, any, filter, epoch, any-sort_by, count-append, if-cases, String, ℕ,
}
use manifeed.Db.{Source}
use manifeed.Backend.Partitions.Tables.{partition_rows, all_rows, week, week_start, is_last_week}
use manifeed.Backend.Partitions.{Storage, distinct_weeks, list_week_starts_for_all_sources}
use manifeed.Backend.Partitions.Restored.{any-count}
use manifeed.Backend.Partitions.Stored.{IsStored}
use manifeed.Backend.Partitions.Opened.{cleared, weeks}

-- An article of the last week.
abbrev pub is_in_last_week : Source → Bool
is_in_last_week r = is_last_week (week_start r.published_at)

any-member :
    (p : Instant → Bool) (v : Instant) (ws : List Instant)
    → any (λ w. w == v) ws ≡ true
    → p v ≡ true
    → any p ws ≡ true
any-member p v [] h k = cc
any-member p v (w ∷ ws) h k = elim (Bool-cases (w == v)) [
  | inl same ↦ rw ((==_iff w v).0 same) (rw k refl)
  | inr other ↦ ground (arith, any-member p v ws (ground (arith, h, other)) k)
]

any-distinct :
    (p : Instant → Bool) (ss : List Source)
    → any p (distinct_weeks ss) ≡ any (λ s. p (week_start s.published_at)) ss
any-distinct p [] = refl
any-distinct p (s ∷ ss) =
    if-cases (λ ws. any p ws ≡ any (λ r. p (week_start r.published_at)) (s ∷ ss))
      (any (λ w. w == week_start s.published_at) (distinct_weeks ss)) _ _
      (known (any-distinct p ss)) (λ _. ground (arith, any-distinct p ss))
  where
    known :
        any p (distinct_weeks ss) ≡ any (λ r. p (week_start r.published_at)) ss
        → any (λ w. w == week_start s.published_at) (distinct_weeks ss) ≡ true
        → any p (distinct_weeks ss) ≡ any (λ r. p (week_start r.published_at)) (s ∷ ss)
    known rest h = elim (Bool-cases (p (week_start s.published_at))) [
      | inl last ↦ rw last (any-member p (week_start s.published_at) (distinct_weeks ss) h last)
      | inr other ↦ rw other rest
    ]

last-late : (t : Instant) → is_last_week (week_start t) ≡ true → ltb epoch t ≡ true
last-late t h = ground (arith, h)

any-late :
    (ss : List Source)
    → any is_in_last_week (filter (λ r. ltb epoch r.published_at) ss) ≡ any is_in_last_week ss
any-late [] = refl
any-late (s ∷ ss) = elim (Bool-cases (is_in_last_week s)) [
  | inl last ↦ rw (last-late s.published_at last) (rw last refl)
  | inr other ↦
      if-cases (λ rs. any is_in_last_week rs ≡ any is_in_last_week (s ∷ ss))
        (ltb epoch s.published_at) _ _ (λ _. rw other (any-late ss)) (λ _. rw other (any-late ss))
]

module _ (strftime : Instant → String)
    (told_apart : (j k : ℕ) → strftime (j * week) ≡ strftime (k * week) → j ≡ k) (s : Storage)
    (stored : IsStored strftime s) where
  pub weeks-any :
      any is_last_week (weeks strftime told_apart s stored)
      ≡ any is_in_last_week (all_rows s.sources)
  unfolding weeks list_week_starts_for_all_sources cleared
  weeks-any =
      let rows = (partition_rows s.sources.partitions ++ []) ++ s.sources.default_rows in
      any-sort_by leb is_last_week (distinct_weeks (filter (λ r. ltb epoch r.published_at) rows))
      ∙ any-distinct is_last_week (filter (λ r. ltb epoch r.published_at) rows)
      ∙ any-late rows
      ∙ any-count is_in_last_week rows (all_rows s.sources) (
          omega (
            arith,
            count-append is_in_last_week (partition_rows s.sources.partitions ++ [])
                s.sources.default_rows,
            count-append is_in_last_week (partition_rows s.sources.partitions) [],
            count-append is_in_last_week (partition_rows s.sources.partitions)
                s.sources.default_rows,
          ))
