-- ===== src/Backend/Partitions/Tables.antt =====
-- Tables that are partitioned by week, as manage_source_partitions_db_cli.py and PostgreSQL treat them.
use manifeed.Common.{
  ◌+◌, ◌*◌, ◌/◌, ltb, leb, Bool, true, false, ◌&&◌, List, [], ◌∷◌, ◌++◌, String, str_eq, Instant,
  days, end_of_time, any, if◌then◌else◌, Outcome, ok, Error, ◌>>◌, raise_if,
}

-- A weekly partition: what its name ends with, its bounds, and its rows.
pub record Partition (A : Type 0) : Type 0 where
  pub suffix : String
  pub start : Instant
  pub stop : Instant
  pub rows : List A

pub record Table (A : Type 0) : Type 0 where
  pub partitions : List (Partition A)
  pub default_rows : List A

module _ {A : Type 0} where
  abbrev pub partition_rows : List (Partition A) → List A
  partition_rows [] = []
  partition_rows (p ∷ ps) = p.rows ++ partition_rows ps

  -- `SELECT … FROM` the parent table
  abbrev pub all_rows : Table A → List A
  all_rows t = partition_rows t.partitions ++ t.default_rows

module _ {A : Type 0} (date : A → Instant) where
  abbrev pub in_range : A → Partition A → Bool
  in_range row p = leb p.start (date row) && ltb (date row) p.stop

  abbrev pub put_row : A → List (Partition A) → List (Partition A)
  put_row row [] = []
  put_row row (p ∷ ps) =
      let rest = put_row row ps in
      if in_range row p then record p { rows = row ∷ p.rows } ∷ ps else p ∷ rest

  -- A new row goes into the partition of its date, or into the default one.
  unfoldable pub insert_row : A → Table A → Table A
  insert_row row t =
      if any (in_range row) t.partitions
      then record t { partitions = put_row row t.partitions }
      else record t { default_rows = row ∷ t.default_rows }

abbrev pub week : Instant
week = days 7

-- `date_trunc('week', …)`: 0001-01-01 is a Monday.
abbrev pub week_start : Instant → Instant
week_start t = t / week * week

module _ {A : Type 0} where
  abbrev pub table_exists : String → Table A → Bool
  table_exists suffix t = any (λ p. str_eq p.suffix suffix) t.partitions

  abbrev pub overlaps : Instant → Instant → Partition A → Bool
  overlaps start stop p = ltb p.start stop && ltb start p.stop

-- `week_start + timedelta(days=7)` is no datetime.
abbrev pub is_last_week : Instant → Bool
is_last_week start = leb end_of_time (start + week)

-- The partition of a week whose end is a datetime.
module _ (strftime : Instant → String) {A : Type 0} where
  abbrev pub new_partition : Instant → Partition A
  new_partition start = record {
    suffix = strftime start;
    start = start;
    stop = start + week;
    rows = [];
  }

module _ (strftime : Instant → String) {A : Type 0} (date : A → Instant) where
  -- CREATE TABLE … PARTITION OF fails where the bounds overlap with those of a partition, or where
  -- the default partition has a row between them. The flag says whether the table was created.
  unfoldable pub create_partition_if_missing : Instant → Table A → Outcome (Table A × Bool)
  create_partition_if_missing start t =
      if table_exists (strftime start) t
      then ok (t, false)
      else raise_if (any (overlaps start (start + week)) t.partitions) Error.driver_error
        >> (raise_if (any (λ r. in_range date r (new_partition strftime start)) t.default_rows)
              Error.integrity_error
            >> ok (record t { partitions = new_partition strftime start ∷ t.partitions }, true))

-- INSERT … ON CONFLICT … DO NOTHING, of the rows one after the other: a row whose key is there is
-- left out, and one that breaks another constraint makes the statement fail.
module _ {A : Type 0} (date : A → Instant) (same : A → A → Bool)
    (refused : A → Table A → Bool) where
  unfoldable pub restore_rows : List A → Table A → Outcome (Table A)
  unfolding insert_row
  restore_rows [] t = ok t
  restore_rows (r ∷ rs) t =
      let inserted = restore_rows rs (insert_row date r t) in
      let left_out = restore_rows rs t in
      if any (same r) (all_rows t)
      then left_out
      else raise_if (refused r t) Error.integrity_error >> inserted
