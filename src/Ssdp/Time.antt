-- ===== src/Ssdp/Time.antt =====
-- crates/ssdp-core/src/time.rs, and the `core::time::Duration` that it wraps: a number of
-- nanoseconds up to `duration_max`. The operators `+` and `-` panic out of range: `none`.
use rusty_castle.Prelude.{
  ℕ, ◌+◌, ◌-◌, ◌*◌, ◌/◌, ◌^◌, ◌≤◌, ◌≡◌, Option, none, some, ltb, leb, if◌then◌else◌, arith,
}

abbrev pub Duration : Type 0
Duration = ℕ

-- A point in time is the duration since the reference point.
abbrev pub Instant : Type 0
Instant = ℕ

abbrev pub nanos_per_sec : ℕ
nanos_per_sec = 1_000_000_000

abbrev pub duration_max : ℕ
duration_max = 2 ^ 64 * nanos_per_sec - 1

unfoldable pub from_secs : ℕ → Duration
from_secs secs = secs * nanos_per_sec

unfoldable pub from_millis : ℕ → Duration
from_millis ms = ms * 1_000_000

unfoldable pub as_secs : Duration → ℕ
as_secs d = d / nanos_per_sec

unfoldable pub checked_add : Instant → Duration → Option Instant
checked_add t d = if leb (t + d) duration_max then some (t + d) else none

unfoldable pub checked_duration_since : Instant → Instant → Option Duration
checked_duration_since t earlier = if ltb t earlier then none else some (t - earlier)

-- `t + d`
unfoldable pub add : Instant → Duration → Option Instant
unfolding checked_add
add t d = checked_add t d

-- `t - d`
unfoldable pub sub : Instant → Duration → Option Instant
sub t d = if ltb t d then none else some (t - d)

pub add-fits : (t d : ℕ) → t + d ≤ duration_max → add t d ≡ some (t + d)
unfolding add
add-fits t d h = ground arith

pub add-eq-some : (t d : ℕ) {u : ℕ} → add t d ≡ some u → u ≡ t + d
unfolding add
add-eq-some t d h = ground arith
