-- ===== src/Times.antt =====
-- The time of day on the wire: types/mod.rs, and the time functions of types/jiff.rs and types/time.rs
-- in sqlx-mssql-rs-core/src. The two crates' `Time` is a parameter. The arithmetic on `u64` stays below
-- 2^64 for any time of day; the one product that may not is the saturating one.
pub mod RoundTrip
use sqlx_mssql_rs.Prelude.{
  ℕ, ◌+◌, ◌*◌, ◌/◌, ◌%◌, ◌≤◌, ◌<◌, ◌≡◌, Option, none, some, leb, if◌then◌else◌,
}
use sqlx_mssql_rs.Prelude.Read.{◌>>=◌}

-- A `Time` of a crate: its parts, and the constructor that checks them.
pub record TimeCrate (T : Type 0) : Type 0 where
  pub hour : T → ℕ
  pub minute : T → ℕ
  pub second : T → ℕ
  pub nanosecond : T → ℕ
  pub new : ℕ → ℕ → ℕ → ℕ → Option T
  pub hour-range : (t : T) → hour t < 24
  pub minute-range : (t : T) → minute t < 60
  pub second-range : (t : T) → second t < 60
  pub nanosecond-range : (t : T) → nanosecond t < 1000000000
  pub new-parts :
      (h m s n : ℕ)
      → h < 24
      → m < 60
      → s < 60
      → n < 1000000000
      → (t : T) × (new h m s n ≡ some t)
        × (hour t ≡ h)
        × (minute t ≡ m)
        × (second t ≡ s)
        × (nanosecond t ≡ n)
  pub new-late : (h m s n : ℕ) → 24 ≤ h → new h m s n ≡ none

-- The largest values of the integer types that the parts are converted to.
pub record Widths : Type 0 where
  pub part : ℕ
  pub subsecond : ℕ

-- `i8` and `i32` in types/jiff.rs.
abbrev pub jiff_widths : Widths
jiff_widths = record { part = 127; subsecond = 2147483647 }

-- `u8` and `u32` in types/time.rs.
abbrev pub time_widths : Widths
time_widths = record { part = 255; subsecond = 4294967295 }

-- `nanos_to_ticks`, whose second result is always 7.
abbrev pub nanos_to_ticks : ℕ → ℕ × ℕ
nanos_to_ticks nanoseconds = (nanoseconds / 100, 7)

abbrev pub ticks_to_nanos : ℕ → ℕ
ticks_to_nanos ticks =
    if leb (ticks * 100) 18446744073709551615 then ticks * 100 else 18446744073709551615

-- `try_from(n).ok()`.
abbrev pub fits : ℕ → ℕ → Option ℕ
fits most n = if leb n most then some n else none

module _ {T : Type 0} (crate : TimeCrate T) (w : Widths) where
  unfoldable pub nanos_from_time : T → ℕ
  nanos_from_time t =
      (crate.hour t * 3600 + crate.minute t * 60 + crate.second t) * 1000000000 + crate.nanosecond t

  unfoldable pub time_from_nanos : ℕ → Option T
  time_from_nanos nanoseconds = do
    let total_seconds = nanoseconds / 1000000000
    subsecond ← fits w.subsecond (nanoseconds % 1000000000)
    hour ← fits w.part (total_seconds / 3600)
    minute ← fits w.part (total_seconds % 3600 / 60)
    second ← fits w.part (total_seconds % 60)
    crate.new hour minute second subsecond

  -- What is sent for a time, and what is read for what is received.
  abbrev pub encode : T → ℕ
  encode t = (nanos_to_ticks (nanos_from_time t)).0

  abbrev pub decode : ℕ → Option T
  decode ticks = time_from_nanos (ticks_to_nanos ticks)
