-- ===== src/Worker/Parse/OutOfTime.antt =====
-- The dates that `astimezone` cannot convert to UTC.
use manifeed.Common.{◌≡◌, ◌+◌, Bool, true, false, leb, ltb, end_of_time, arith, Error, err}
use manifeed.Worker.Parse.{Moment, zoneless, east_of, west_of, to_utc}

-- A date that a datetime in UTC does not reach.
abbrev pub is_out_of_time : Moment → Bool
is_out_of_time (zoneless t) = false
is_out_of_time (east_of t d) = ltb t d
is_out_of_time (west_of t d) = leb end_of_time (t + d)

-- Only such a date raises, and always the same exception.
pub to_utc-raises :
    (m : Moment) (e : Error)
    → to_utc m ≡ err e
    → (is_out_of_time m ≡ true) × (e ≡ Error.overflow_error)
unfolding to_utc
to_utc-raises (zoneless t) e h = cc
to_utc-raises (east_of t d) e h = ground arith
to_utc-raises (west_of t d) e h = ground arith
