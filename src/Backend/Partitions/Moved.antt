-- ===== src/Backend/Partitions/Moved.antt =====
-- A repartitioning of the articles as a whole: where its rows go, and what it answers.
use manifeed.Common.{
  ◌≡◌, refl, ◌∙◌, ap, arith, ◌+◌, ◌*◌, ◌≤◌, ◌==◌, ℕ, Bool, true, false, not, ◌&&◌, List, ◌∷◌, All,
  Instant, String, length, any, count, sort_by, All-sort_by, ok, err, Error, ◌⊎◌, inl, inr,
  Bool-cases,
}
use manifeed.Db.{Source, SourceFeed}
use manifeed.Backend.Partitions.Tables.{
  Table, partition_rows, all_rows, insert_row, week, restore_rows,
}
use manifeed.Backend.Partitions.{
  Created, Storage, Maintenance, source_date, link_date, same_source, same_url, same_link,
  is_source_of, refers_to, has_url, has_no_reference, source_before, link_before, max_id,
  prepare_default_partition_buffers, clear_default_partitions, list_week_starts_for_all_sources,
  create_partitions, restore_buffers, sync_sources_sequence,
  repartition_default_sources_by_published_at, repartition_cleared,
  repartition_rss_source_partitions, commit_partitions,
}
use manifeed.Backend.Partitions.Restored.{
  Restored, any-count_zero, any-count, count-insert_row, restore_rows-Restored,
}
use manifeed.Backend.Partitions.Weeks.{Opens, create_partitions-Opens, create_partitions-overflow}
use manifeed.Backend.Partitions.LastWeek.{is_in_last_week, weeks-any}
use manifeed.Backend.Partitions.Stored.{IsStored}
use manifeed.Backend.Partitions.Opened.{
  IsOldSource, IsOldLink, cleared, cleared_lem, cleared-IsOpen, weeks, weeks-starts, sources-placed,
  links-placed,
}
use manifeed.Backend.Partitions.Rows.{
  same_source_refl, same_url_refl, same_link_refl, split-count, dates-found, any-right,
  referred-date, All-imp,
}

-- What has moved: every row is still there, the default partitions keep old rows only, and the
-- answer counts the rows that were moved.
pub record IsMoved (s t : Storage) (made : Maintenance) : Type 0 where
  pub sources_kept :
      (p : Source → Bool) → count p (all_rows t.sources) ≡ count p (all_rows s.sources)
  pub links_kept : (p : SourceFeed → Bool) → count p (all_rows t.links) ≡ count p (all_rows s.links)
  pub old_sources : All IsOldSource t.sources.default_rows
  pub old_links : All IsOldLink t.links.default_rows
  pub source_count : made.source_default_rows_repartitioned ≡ length s.sources.default_rows
  pub link_count : made.source_feed_default_rows_repartitioned ≡ length s.links.default_rows
  pub sequence : t.last_source_id ≡ max_id (all_rows t.sources)

module _ (strftime : Instant → String)
    (told_apart : (j k : ℕ) → strftime (j * week) ≡ strftime (k * week) → j ≡ k) (s : Storage)
    (stored : IsStored strftime s) (t : Storage)
    (opens : Opens strftime
      (cleared strftime told_apart s stored)
      (weeks strftime told_apart s stored)
      t) where
  sources-Restored : Restored IsOldSource (sort_by source_before s.sources.default_rows) t.sources (
      restore_rows source_date same_source has_url
        (sort_by source_before s.sources.default_rows)
        t.sources)
  unfolding cleared
  sources-Restored =
      restore_rows-Restored source_date same_source has_url IsOldSource
        (λ rs u. (x : Source) → count (same_url x) rs + count (same_url x) (all_rows u) ≤ 1)
        same_source_refl step (sort_by source_before s.sources.default_rows) t.sources
        (λ x. once (same_source x) (stored.source_keys x))
        (λ x. once (same_url x) (stored.source_urls x))
        (sources-placed strftime told_apart s stored t opens _ (
          All-sort_by source_before _ s.sources.default_rows (
            dates-found s.sources.default_rows (all_rows s.sources)
              (λ p. any-right p (partition_rows s.sources.partitions) s.sources.default_rows))))
        (rw (opens.opened.no_sources) tt)
    where
      once :
          (p : Source → Bool)
          → count p (all_rows s.sources) ≤ 1
          → count p (sort_by source_before s.sources.default_rows) + count p (all_rows t.sources)
            ≤ 1
      once p h = rw (opens.same_sources) (omega (arith, h, split-count source_before p s.sources))

      step :
          (r : Source) (rs : List Source) (u : Table Source)
          → ((x : Source) → count (same_url x) (r ∷ rs) + count (same_url x) (all_rows u) ≤ 1)
          → (has_url r u ≡ false)
            × ((x : Source)
                → count (same_url x) rs + count (same_url x) (all_rows (insert_row source_date r u))
                  ≤ 1)
      step r rs u h = (
        any-count_zero (same_url r) (all_rows u) (ground (arith, h r, same_url_refl r)),
        λ x. omega (arith, h x, count-insert_row source_date (same_url x) r u),
      )

  -- The links go back where the articles are again.
  module _ (u : Table Source)
      (kept : (p : Source → Bool) → count p (all_rows u) ≡ count p (all_rows s.sources)) where
    abbrev Refers : SourceFeed → Type 0
    Refers l = not (refers_to (all_rows u) l && any (λ f. f == l.feed_id) t.feed_ids) ≡ false

    still-Refers :
        (l : SourceFeed)
        → (refers_to (all_rows s.sources) l && any (λ f. f == l.feed_id) s.feed_ids) ≡ true
        → Refers l
    unfolding cleared
    still-Refers l h =
        rw
          (
            any-count (is_source_of l) (all_rows u) (all_rows s.sources) (kept (is_source_of l)),
            opens.same_feeds,
            h,
          )
          refl

    links-Restored : Restored IsOldLink (sort_by link_before s.links.default_rows) t.links (
        restore_rows link_date same_link
          (has_no_reference t.feed_ids (all_rows u))
          (sort_by link_before s.links.default_rows)
          t.links)
    unfolding cleared
    links-Restored =
        restore_rows-Restored link_date same_link (has_no_reference t.feed_ids (all_rows u))
          IsOldLink (λ ls v. All Refers ls) same_link_refl (λ l ls v h. h)
          (sort_by link_before s.links.default_rows) t.links
          (λ x.
            rw (opens.same_links)
              (omega (arith, stored.link_keys x, split-count link_before (same_link x) s.links)))
          (All-sort_by link_before Refers s.links.default_rows
            (All-imp _ Refers s.links.default_rows still-Refers stored.references))
          (links-placed strftime told_apart s stored t opens _ (
            All-sort_by link_before _ s.links.default_rows (
              All-imp _ _ s.links.default_rows
                (λ l h. referred-date l (all_rows s.sources) (ground (arith, h)))
                stored.references)))
          (rw (opens.opened.no_links) tt)

  -- What putting the rows back comes to.
  restored :
      (r : Storage) × (restore_buffers (prepare_default_partition_buffers s) t ≡ ok r)
      × ((made : Maintenance)
          → made.source_default_rows_repartitioned ≡ length s.sources.default_rows
          → made.source_feed_default_rows_repartitioned ≡ length s.links.default_rows
          → IsMoved s r made)
  unfolding restore_buffers cleared
  restored =
      let (u, found, counts, old) = sources-Restored in
      let kept : (p : Source → Bool) → count p (all_rows u) ≡ count p (all_rows s.sources) = λ p.
        counts p
        ∙ ap (λ xs. count p (sort_by source_before s.sources.default_rows) + count p xs)
            opens.same_sources
        ∙ split-count source_before p s.sources in
      let (v, found', counts', old') = links-Restored u kept in
      (
        sync_sources_sequence (record t { sources = u; links = v }),
        rw (found, found', restore_buffers) refl,
        λ made m n. record {
          sources_kept = kept;
          links_kept = λ p.
              counts' p
              ∙ ap (λ xs. count p (sort_by link_before s.links.default_rows) + count p xs)
                  opens.same_links
              ∙ split-count link_before p s.links;
          old_sources = old;
          old_links = old';
          source_count = m;
          link_count = n;
          sequence = refl;
        },
      )

abbrev answer_of : Storage → Created → ℕ → Maintenance
answer_of s c covered = record {
  source_default_rows_repartitioned = length s.sources.default_rows;
  source_feed_default_rows_repartitioned = length s.links.default_rows;
  source_weekly_partitions_created = c.1.0;
  source_feed_weekly_partitions_created = c.1.1;
  weeks_covered = covered;
}

repartition-answer :
    (strftime : Instant → String) (s z r : Storage) (c : Created)
    → clear_default_partitions s ≡ z
    → create_partitions strftime
        (list_week_starts_for_all_sources z (prepare_default_partition_buffers s))
        (z, (0, 0))
      ≡ ok c
    → restore_buffers (prepare_default_partition_buffers s) c.0 ≡ ok r
    → repartition_default_sources_by_published_at strftime s
      ≡ ok (
        r,
        answer_of s c
            (length (list_week_starts_for_all_sources z (prepare_default_partition_buffers s))),
      )
unfolding repartition_default_sources_by_published_at repartition_cleared
repartition-answer strftime s z r c clear create restore =
    ap (repartition_cleared strftime (prepare_default_partition_buffers s)) clear
    ∙ rw (create, restore, repartition_cleared) refl

overflow-answer :
    (strftime : Instant → String) (s z : Storage)
    → clear_default_partitions s ≡ z
    → create_partitions strftime
        (list_week_starts_for_all_sources z (prepare_default_partition_buffers s))
        (z, (0, 0))
      ≡ err Error.overflow_error
    → repartition_default_sources_by_published_at strftime s ≡ err Error.overflow_error
unfolding repartition_default_sources_by_published_at repartition_cleared
overflow-answer strftime s z clear create =
    ap (repartition_cleared strftime (prepare_default_partition_buffers s)) clear
    ∙ rw (create, repartition_cleared) refl

-- What a repartitioning comes to where it reaches its commit.
abbrev pub ReachesCommit : (Instant → String) → Bool → Storage → Type 0
ReachesCommit strftime commits s =
    (made : Maintenance) × (r : Storage) × IsMoved s r made
    × (repartition_rss_source_partitions strftime commits s
        ≡ commit_partitions commits s (ok (r, made)))

-- A repartitioning of a storage that is as PostgreSQL keeps it, with names that tell the weeks apart:
-- where an article is of the last week of the year 9999, it raises an OverflowError and nothing has
-- changed. Otherwise it raises only where its commit does, and then nothing has changed; or every
-- article and every link is still there, those in the default partitions are not later than 1970, the
-- next id follows the highest one, and the answer counts the rows that were in the default
-- partitions.
pub repartition_rss_source_partitions-IsMoved :
    (strftime : Instant → String)
    (told_apart : (j k : ℕ) → strftime (j * week) ≡ strftime (k * week) → j ≡ k) (commits : Bool)
    (s : Storage)
    → IsStored strftime s
    → ((any is_in_last_week (all_rows s.sources) ≡ true)
        × (repartition_rss_source_partitions strftime commits s ≡ (err Error.overflow_error, s)))
      ⊎ ((any is_in_last_week (all_rows s.sources) ≡ false) × ReachesCommit strftime commits s)
unfolding repartition_rss_source_partitions weeks
repartition_rss_source_partitions-IsMoved strftime told_apart commits s stored =
    let z = cleared strftime told_apart s stored in
    let clear = cleared_lem strftime told_apart s stored in
    let starts = weeks-starts strftime told_apart s stored in
    let opened = cleared-IsOpen strftime told_apart s stored in
    let dates = weeks-any strftime told_apart s stored in
    elim (Bool-cases (any is_in_last_week (all_rows s.sources))) [
      | inl last ↦ inl (
        last,
        ap (commit_partitions commits s) (
            overflow-answer strftime s z clear (
              create_partitions-overflow strftime (weeks strftime told_apart s stored) (z, (0, 0))
                starts (dates ∙ last) opened)),
      )
      | inr fits ↦
          let (c, created, opens) =
            create_partitions-Opens strftime (weeks strftime told_apart s stored) (z, (0, 0)) starts
              (dates ∙ fits) opened in
          let (r, found, moved) = restored strftime told_apart s stored c.0 opens in
          let made = answer_of s c (length (weeks strftime told_apart s stored)) in
          inr (
            fits,
            (
              made,
              r,
              moved made refl refl,
              ap (commit_partitions commits s)
                  (repartition-answer strftime s z r c clear created found),
            ),
          )
    ]
