-- ===== src/Tests/Partitioning.antt =====
-- A repartitioning of two articles of 2026 and of one without a date, and a second one behind it.
use manifeed.Common.{
  ℕ, zero, suc, ◌*◌, ◌/◌, ◌≡◌, refl, sym, ◌∙◌, ap, arith, true, none, [], ◌∷◌, String, Instant,
  epoch, year_2026, days, ◌+◌, eq_iff, text_length, show, ok, err, Error, any, false, ◌⊎◌,
}
use manifeed.Db.{Source, SourceFeed}
use manifeed.Backend.Partitions.Tables.{
  week, all_rows, is_last_week, restore_rows, insert_row, create_partition_if_missing,
}
use manifeed.Backend.Partitions.{
  Storage, list_week_starts_for_all_sources, create_weekly_partition_pair, create_partitions,
  restore_buffers, clear_default_partitions, repartition_cleared,
  repartition_default_sources_by_published_at, repartition_rss_source_partitions,
}
use manifeed.Backend.Partitions.Stored.{IsStored}
use manifeed.Backend.Partitions.LastWeek.{is_in_last_week}
use manifeed.Backend.Partitions.Moved.{ReachesCommit, repartition_rss_source_partitions-IsMoved}

abbrev article : ℕ → String → Instant → Source
article id url t = record {
  id = id;
  title = "T";
  summary = none;
  author = none;
  url = url;
  published_at = t;
  image_url = none;
}

abbrev link : ℕ → ℕ → Instant → SourceFeed
link s f t = record { source_id = s; feed_id = f; published_at = t }

abbrev before : Storage
before = record {
  sources = record {
    partitions = [];
    default_rows =
        article 7 "c" (year_2026 + days 2) ∷ article 5 "a" epoch ∷ article 6 "b" year_2026 ∷ [];
  };
  links = record { partitions = []; default_rows = link 6 1 year_2026 ∷ link 5 1 epoch ∷ [] };
  feed_ids = 1 ∷ [];
  last_source_id = 3;
}

-- 2026-01-01 is a Thursday: its week starts three days before.
abbrev behind : Storage
behind = record {
  sources = record {
    partitions =
        record {
          suffix = show 105659;
          start = days 739613;
          stop = days 739620;
          rows = article 7 "c" (year_2026 + days 2) ∷ article 6 "b" year_2026 ∷ [];
        }
        ∷ [];
    default_rows = article 5 "a" epoch ∷ [];
  };
  links = record {
    partitions =
        record {
          suffix = show 105659;
          start = days 739613;
          stop = days 739620;
          rows = link 6 1 year_2026 ∷ [];
        }
        ∷ [];
    default_rows = link 5 1 epoch ∷ [];
  };
  feed_ids = 1 ∷ [];
  last_source_id = 7;
}

repartitioned : repartition_rss_source_partitions (λ t. show (t / week)) true before ≡ (
  ok (record {
    source_default_rows_repartitioned = 3;
    source_feed_default_rows_repartitioned = 2;
    source_weekly_partitions_created = 1;
    source_feed_weekly_partitions_created = 1;
    weeks_covered = 1;
  }),
  behind,
)
unfolding repartition_rss_source_partitions repartition_default_sources_by_published_at
    repartition_cleared clear_default_partitions list_week_starts_for_all_sources create_partitions
    create_weekly_partition_pair create_partition_if_missing restore_buffers restore_rows insert_row
    show
repartitioned = refl

-- Names that count the weeks with strokes tell them apart.
abbrev strokes : ℕ → String
strokes zero = ""
strokes (suc n) = String.◌∷◌ "|" (strokes n)

abbrev stroke_name : Instant → String
stroke_name t = strokes (t / week)

length-strokes : (n : ℕ) → text_length (strokes n) ≡ n
length-strokes zero = refl
length-strokes (suc n) = ap suc (length-strokes n)

strokes-apart : (j k : ℕ) → stroke_name (j * week) ≡ stroke_name (k * week) → j ≡ k
strokes-apart j k e =
    let same : j * week / week ≡ k * week / week =
      sym (length-strokes (j * week / week))
      ∙ ap text_length e
      ∙ length-strokes (k * week / week) in
    omega arith

before-IsStored : IsStored stroke_name before
before-IsStored = record {
  source_weeks = tt;
  link_weeks = tt;
  paired = tt;
  sources_routed = (refl, (refl, (refl, tt)));
  links_placed = tt;
  source_keys = λ x. ground arith;
  source_urls = λ x. ground (arith, eq_iff "c" x.url, eq_iff "a" x.url, eq_iff "b" x.url);
  link_keys = λ x. ground arith;
  references = (refl, (refl, tt));
}

repartition_rss_source_partitions-IsMoved_example :
    ((any is_in_last_week (all_rows before.sources) ≡ true)
      × (repartition_rss_source_partitions stroke_name true before
          ≡ (err Error.overflow_error, before)))
    ⊎ ((any is_in_last_week (all_rows before.sources) ≡ false)
        × ReachesCommit stroke_name true before)
repartition_rss_source_partitions-IsMoved_example =
    repartition_rss_source_partitions-IsMoved stroke_name strokes-apart true before before-IsStored

-- 9999-12-27 is a Monday.
last_week : (is_last_week (days 3652054) ≡ true) × (is_last_week (days 3652047) ≡ false)
last_week = (refl, refl)
