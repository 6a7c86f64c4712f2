-- ===== src/Contracts/Time.antt =====
-- Python datetimes, and `_as_utc` of services/api/app/contracts.py.
use event_alpha.Prelude.{ℕ, ◌+◌, leb, if◌then◌else◌}
use event_alpha.Prelude.Int.{ℤ}
use event_alpha.Errors.{Result, ok, err, value_error, other}

-- A point of time: microseconds since 0001-01-01 00:00 UTC. A datetime in UTC is its instant.
abbrev pub Instant : Type 0
Instant = ℕ

-- A naive datetime has only a wall clock reading (in the same unit); an aware one denotes an
-- instant and has the UTC offset in which it is written.
pub data DateTime : Type 0 where
  naive : ℕ → DateTime
  aware : Instant → ℤ → DateTime

-- value.astimezone(UTC) of an aware datetime is its instant; a naive one is refused.
unfoldable pub as_utc : DateTime → Result Instant
as_utc (naive wall) = err value_error
as_utc (aware at offset) = ok at

-- timedelta(minutes=n), timedelta(seconds=n), timedelta(hours=n)
abbrev pub microseconds_per_second : ℕ
microseconds_per_second = 1_000_000

-- datetime.max in UTC, 9999-12-31 23:59:59.999999: the last of 3,652,059 days.
abbrev pub max_instant : Instant
max_instant = 315_537_897_599_999_999

-- A datetime and a timedelta: past `max_instant` the sum raises OverflowError.
unfoldable pub plus_timedelta : Instant → ℕ → Result Instant
plus_timedelta t span =
    if leb (t + span) max_instant then ok (t + span) else err (other "OverflowError")
