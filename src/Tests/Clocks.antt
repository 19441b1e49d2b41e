-- ===== src/Tests/Clocks.antt =====
-- A crate of times, and instances of the theorems on times of day.
use sqlx_mssql_rs.Prelude.{ℕ, ◌*◌, ◌/◌, ◌%◌, ◌≤◌, ◌<◌, ◌≡◌, none, some, arith, leb, if◌then◌else◌}
use sqlx_mssql_rs.Times.{TimeCrate, jiff_widths, encode, decode}
use sqlx_mssql_rs.Times.RoundTrip.{decode-encode, encode-decode}

record Clock : Type 0 where
  pub hours : ℕ
  pub minutes : ℕ
  pub seconds : ℕ
  pub nanoseconds : ℕ

abbrev clock : ℕ → ℕ → ℕ → ℕ → Clock
clock h m s n = record { hours = h; minutes = m; seconds = s; nanoseconds = n }

new_clock-late : (h m s n : ℕ) → 24 ≤ h → (if leb 24 h then none else some (clock h m s n)) ≡ none
new_clock-late h m s n e = ground arith

new_clock-early :
    (h m s n : ℕ)
    → h < 24
    → (if leb 24 h then none else some (clock h m s n)) ≡ some (clock h m s n)
new_clock-early h m s n e = ground arith

abbrev clocks : TimeCrate Clock
clocks = record {
  hour = λ t. t.hours % 24;
  minute = λ t. t.minutes % 60;
  second = λ t. t.seconds % 60;
  nanosecond = λ t. t.nanoseconds % 1000000000;
  new = λ h m s n. if leb 24 h then none else some (clock h m s n);
  hour-range = λ t. omega arith;
  minute-range = λ t. omega arith;
  second-range = λ t. omega arith;
  nanosecond-range = λ t. omega arith;
  new-parts = λ h m s n a b c d. (
    clock h m s n,
    new_clock-early h m s n a,
    omega arith,
    omega arith,
    omega arith,
    omega arith,
  );
  new-late = new_clock-late;
}

abbrev noon : Clock
noon = clock 12 30 45 123456789

decode-encode_example :
    (t : Clock) × (decode clocks jiff_widths (encode clocks jiff_widths noon) ≡ some t)
    × (clocks.hour t ≡ clocks.hour noon)
    × (clocks.minute t ≡ clocks.minute noon)
    × (clocks.second t ≡ clocks.second noon)
    × (clocks.nanosecond t ≡ clocks.nanosecond noon / 100 * 100)
decode-encode_example = decode-encode clocks jiff_widths noon (omega arith, omega arith)

encode-decode_example :
    (t : Clock) × (decode clocks jiff_widths 450001234567 ≡ some t)
    × (encode clocks jiff_widths t ≡ 450001234567)
encode-decode_example =
    encode-decode clocks jiff_widths 450001234567 (omega arith, omega arith) (omega arith)
