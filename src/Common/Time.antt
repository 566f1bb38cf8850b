-- ===== src/Common/Time.antt =====
-- Python's `datetime`. An aware value is held as its instant in UTC with its offset; an instant is
-- the number of microseconds since 0001-01-01T00:00:00Z. What the code normalises to UTC, and what
-- PostgreSQL keeps in a TIMESTAMPTZ column, is an instant.
use Prim.Native.Nat.{ℕ, ◌*◌}
use mathlib.Core.Option.{Option, none, some}

abbrev pub Instant : Type 0
Instant = ℕ

-- minutes to the east or to the west of Greenwich
pub data Offset : Type 0 where
  east west : ℕ → Offset

pub data DateTime : Type 0 where
  naive : Instant → DateTime
  aware : Instant → Offset → DateTime

abbrev pub seconds : ℕ → ℕ
seconds n = n * 1000000

abbrev pub days : ℕ → ℕ
days n = seconds (n * 86400)

-- 1970-01-01 and 2026-01-01 are 719162 and 739616 days after 0001-01-01
abbrev pub epoch : Instant
epoch = days 719162

abbrev pub year_2026 : Instant
year_2026 = days 739616

-- 10000-01-01, which a datetime does not reach
abbrev pub end_of_time : Instant
end_of_time = days 3652059

-- `replace(tzinfo=utc)` for a naive value, `astimezone(utc)` for an aware one
unfoldable pub normalize_datetime : DateTime → Instant
normalize_datetime (naive t) = t
normalize_datetime (aware t _) = t

unfoldable pub normalize_optional_datetime : Option DateTime → Option Instant
unfolding normalize_datetime
normalize_optional_datetime none = none
normalize_optional_datetime (some d) = some (normalize_datetime d)
