-- ===== src/Backend/Partitions.antt =====
-- backend/app/clients/database/sources/manage_source_partitions_db_cli.py and
-- services/sources/source_partition_service.py: the rows of the default partitions of the articles
-- and of their links move into weekly partitions.
pub mod Tables
pub mod Restored
pub mod Weeks
pub mod Stored
pub mod Opened
pub mod Rows
pub mod LastWeek
pub mod Moved
use manifeed.Common.{
  ◌==◌, ◌+◌, ◌*◌, ◌/◌, ltb, leb, Bool, true, false, not, ◌&&◌, ◌||◌, max, Option, none, some, List,
  [], ◌∷◌, ◌++◌, ℕ, String, str_eq, Instant, days, epoch, length, any, filter, map, sort_by,
  if◌then◌else◌, Outcome, ok, err, Error, ◌>>=◌, ◌>>◌, raise_if,
}
use manifeed.Backend.Partitions.Tables.{
  Partition, Table, partition_rows, all_rows, in_range, put_row, insert_row, week, week_start,
  table_exists, is_last_week, overlaps, new_partition, create_partition_if_missing, restore_rows,
}
use manifeed.Db.{Source, SourceFeed}

abbrev pub source_date : Source → Instant
source_date s = s.published_at

abbrev pub link_date : SourceFeed → Instant
link_date l = l.published_at

-- The two partitioned tables, the ids of the feeds, and the sequence of the articles.
pub record Storage : Type 0 where
  pub sources : Table Source
  pub links : Table SourceFeed
  pub feed_ids : List ℕ
  pub last_source_id : ℕ

-- The primary keys, the other unique constraint, and the references of a link.
abbrev pub same_source : Source → Source → Bool
same_source s r = r.id == s.id && r.published_at == s.published_at

abbrev pub same_url : Source → Source → Bool
same_url s r = str_eq r.url s.url && r.published_at == s.published_at

abbrev pub same_link : SourceFeed → SourceFeed → Bool
same_link l k =
    k.source_id == l.source_id && k.feed_id == l.feed_id && k.published_at == l.published_at

abbrev pub is_source_of : SourceFeed → Source → Bool
is_source_of l s = s.id == l.source_id && s.published_at == l.published_at

abbrev pub refers_to : List Source → SourceFeed → Bool
refers_to sources l = any (is_source_of l) sources

-- The two temporary tables. COALESCE leaves the dates as they are, which are not null.
pub record Buffers : Type 0 where
  pub sources : List Source
  pub links : List SourceFeed

abbrev pub prepare_default_partition_buffers : Storage → Buffers
prepare_default_partition_buffers s = record {
  sources = s.sources.default_rows;
  links = s.links.default_rows;
}

abbrev pub delete_links :
    (SourceFeed → Bool) → List (Partition SourceFeed) → List (Partition SourceFeed)
delete_links p [] = []
delete_links p (q ∷ qs) = record q { rows = filter (λ l. not (p l)) q.rows } ∷ delete_links p qs

-- DELETE FROM both default partitions. Deleting an article deletes the links to it.
unfoldable pub clear_default_partitions : Storage → Storage
clear_default_partitions s = record s {
  sources = record s.sources { default_rows = [] };
  links = record {
    partitions = delete_links (refers_to s.sources.default_rows) s.links.partitions;
    default_rows = [];
  };
}

abbrev pub distinct_weeks : List Source → List Instant
distinct_weeks [] = []
distinct_weeks (s ∷ ss) =
    let rest = distinct_weeks ss in
    if any (λ w. w == week_start s.published_at) rest
    then rest
    else week_start s.published_at ∷ rest

unfoldable pub list_week_starts_for_all_sources : Storage → Buffers → List Instant
list_week_starts_for_all_sources s buffers = sort_by leb (
    distinct_weeks (filter (λ r. ltb epoch r.published_at) (all_rows s.sources ++ buffers.sources)))

abbrev pub one_if : Bool → ℕ
one_if b = if b then 1 else 0

-- The storage, and how many partitions of the articles and of the links were created.
abbrev pub Created : Type 0
Created = Storage × (ℕ × ℕ)

-- One round of the loop over the weeks, with `_create_weekly_partition_pair`: the end of the week is
-- computed first, which raises for the last week of the year 9999.
unfoldable pub create_weekly_partition_pair :
    (Instant → String) → Instant → Created → Outcome Created
unfolding create_partition_if_missing
create_weekly_partition_pair strftime start (s, (sources, links)) =
    raise_if (is_last_week start) Error.overflow_error
    >> (create_partition_if_missing strftime source_date start s.sources >>= λ a.
        create_partition_if_missing strftime link_date start s.links >>= λ b.
        ok (record s { sources = a.0; links = b.0 }, (sources + one_if a.1, links + one_if b.1)))

unfoldable pub create_partitions : (Instant → String) → List Instant → Created → Outcome Created
unfolding create_weekly_partition_pair
create_partitions strftime [] c = ok c
create_partitions strftime (w ∷ ws) c =
    create_weekly_partition_pair strftime w c >>= λ d. create_partitions strftime ws d

abbrev pub has_url : Source → Table Source → Bool
has_url r t = any (same_url r) (all_rows t)

abbrev pub restore_sources : List Source → Table Source → Outcome (Table Source)
restore_sources rows t = restore_rows source_date same_source has_url rows t

abbrev pub has_no_reference : List ℕ → List Source → SourceFeed → Table SourceFeed → Bool
has_no_reference feed_ids sources l t =
    not (refers_to sources l && any (λ f. f == l.feed_id) feed_ids)

abbrev pub restore_links :
    List ℕ → List Source → List SourceFeed → Table SourceFeed → Outcome (Table SourceFeed)
restore_links feed_ids sources rows t =
    restore_rows link_date same_link (has_no_reference feed_ids sources) rows t

-- ORDER BY id, and ORDER BY source_id, feed_id
abbrev pub source_before : Source → Source → Bool
source_before s r = leb s.id r.id

abbrev pub link_before : SourceFeed → SourceFeed → Bool
link_before l k =
    ltb l.source_id k.source_id || (l.source_id == k.source_id && leb l.feed_id k.feed_id)

abbrev pub max_id : List Source → ℕ
max_id [] = 0
max_id (s ∷ ss) = max s.id (max_id ss)

-- `setval(…, COALESCE(MAX(id), 1), EXISTS(…))`: of an empty table the next id is 1.
abbrev pub sync_sources_sequence : Storage → Storage
sync_sources_sequence s = record s { last_source_id = max_id (all_rows s.sources) }

pub record Maintenance : Type 0 where
  pub source_default_rows_repartitioned : ℕ
  pub source_feed_default_rows_repartitioned : ℕ
  pub source_weekly_partitions_created : ℕ
  pub source_feed_weekly_partitions_created : ℕ
  pub weeks_covered : ℕ

-- What is left to do where the partitions are there.
unfoldable pub restore_buffers : Buffers → Storage → Outcome Storage
unfolding restore_rows
restore_buffers buffers s =
    restore_sources (sort_by source_before buffers.sources) s.sources >>= λ sources.
    restore_links s.feed_ids (all_rows sources) (sort_by link_before buffers.links) s.links
    >>= λ links. ok (sync_sources_sequence (record s { sources = sources; links = links }))

-- The part behind the deletion.
unfoldable pub repartition_cleared :
    (Instant → String) → Buffers → Storage → Outcome (Storage × Maintenance)
unfolding restore_buffers create_partitions list_week_starts_for_all_sources
repartition_cleared strftime buffers cleared =
    let weeks = list_week_starts_for_all_sources cleared buffers in
    create_partitions strftime weeks (cleared, (0, 0)) >>= λ c.
    restore_buffers buffers c.0 >>= λ restored. ok (
      restored,
      record {
        source_default_rows_repartitioned = length buffers.sources;
        source_feed_default_rows_repartitioned = length buffers.links;
        source_weekly_partitions_created = c.1.0;
        source_feed_weekly_partitions_created = c.1.1;
        weeks_covered = length weeks;
      },
    )

unfoldable pub repartition_default_sources_by_published_at :
    (Instant → String) → Storage → Outcome (Storage × Maintenance)
unfolding repartition_cleared clear_default_partitions
repartition_default_sources_by_published_at strftime s =
    repartition_cleared strftime (prepare_default_partition_buffers s) (clear_default_partitions s)

-- `try: … db.commit() except: db.rollback(); raise`
abbrev pub commit_partitions :
    Bool → Storage → Outcome (Storage × Maintenance) → Outcome Maintenance × Storage
commit_partitions commits s (err e) = (err e, s)
commit_partitions true s (ok (restored, result)) = (ok result, restored)
commit_partitions false s (ok (restored, result)) = (err Error.driver_error, s)

unfoldable pub repartition_rss_source_partitions :
    (Instant → String) → Bool → Storage → Outcome Maintenance × Storage
unfolding repartition_default_sources_by_published_at
repartition_rss_source_partitions strftime commits s =
    commit_partitions commits s (repartition_default_sources_by_published_at strftime s)
