-- ===== src/Times/RoundTrip.antt =====
-- Times of day through the wire format of types/jiff.rs and types/time.rs.
use sqlx_mssql_rs.Prelude.{ℕ, ◌+◌, ◌*◌, ◌/◌, ◌%◌, ◌≤◌, ◌<◌, ◌≡◌, ap, ◌∙◌, some, arith}
use sqlx_mssql_rs.Times.{
  TimeCrate, Widths, ticks_to_nanos, fits, nanos_from_time, time_from_nanos, encode, decode,
}

ticks_to_nanos_small : (n : ℕ) → n ≤ 184467440737095516 → ticks_to_nanos n ≡ n * 100
ticks_to_nanos_small n h = ground arith

fits_small : (most n : ℕ) → n ≤ most → fits most n ≡ some n
fits_small most n h = ground arith

module _ {T : Type 0} (crate : TimeCrate T) (w : Widths) where
  -- The integers of the conversions hold every part of a time.
  abbrev pub Wide : Type 0
  Wide = (59 ≤ w.part) × (999999999 ≤ w.subsecond)

  -- The time that is recovered from a count of nanoseconds within a day.
  time_from_nanos-parts :
      (n : ℕ)
      → Wide
      → n < 86400000000000
      → (t : T) × (time_from_nanos crate w n ≡ some t)
        × (crate.hour t ≡ n / 1000000000 / 3600)
        × (crate.minute t ≡ n / 1000000000 % 3600 / 60)
        × (crate.second t ≡ n / 1000000000 % 60)
        × (crate.nanosecond t ≡ n % 1000000000)
  unfolding time_from_nanos
  time_from_nanos-parts n (part, subsecond) h =
      let total = n / 1000000000 in
      let (t, e, h_, m_, s_, n_) =
        crate.new-parts (total / 3600) (total % 3600 / 60) (total % 60) (n % 1000000000)
          (omega arith) (omega arith) (omega arith) (omega arith) in
      (
        t,
        rw
            (
              fits_small w.subsecond (n % 1000000000) (omega arith),
              fits_small w.part (n / 1000000000 / 3600) (omega arith),
              fits_small w.part (n / 1000000000 % 3600 / 60) (omega arith),
              fits_small w.part (n / 1000000000 % 60) (omega arith),
            )
            e,
        h_,
        m_,
        s_,
        n_,
      )

  -- A time is decoded from what was sent for it, to its hour, minute and second, and to its
  -- nanosecond rounded down to a multiple of 100.
  pub decode-encode :
      (t : T)
      → Wide
      → (t' : T) × (decode crate w (encode crate w t) ≡ some t')
        × (crate.hour t' ≡ crate.hour t)
        × (crate.minute t' ≡ crate.minute t)
        × (crate.second t' ≡ crate.second t)
        × (crate.nanosecond t' ≡ crate.nanosecond t / 100 * 100)
  unfolding nanos_from_time
  decode-encode t wide =
      let h = crate.hour t in
      let m = crate.minute t in
      let s = crate.second t in
      let n = crate.nanosecond t in
      let all = (h * 3600 + m * 60 + s) * 1000000000 + n in
      let a = crate.hour-range t in
      let b = crate.minute-range t in
      let d = crate.second-range t in
      let f = crate.nanosecond-range t in
      let nanos : ticks_to_nanos (all / 100) ≡ all / 100 * 100 =
        ticks_to_nanos_small (all / 100) (omega (arith, a, b, d, f)) in
      let (t', e, h_, m_, s_, n_) =
        time_from_nanos-parts (all / 100 * 100) wide (omega (arith, a, b, d, f)) in
      (
        t',
        ap (time_from_nanos crate w) nanos ∙ e,
        h_ ∙ omega (arith, a, b, d, f),
        m_ ∙ omega (arith, a, b, d, f),
        s_ ∙ omega (arith, a, b, d, f),
        n_ ∙ omega (arith, a, b, d, f),
      )

  -- Every count of ticks within a day is decoded, and what is sent for the time is that count.
  pub encode-decode :
      (ticks : ℕ)
      → Wide
      → ticks < 864000000000
      → (t : T) × (decode crate w ticks ≡ some t) × (encode crate w t ≡ ticks)
  unfolding nanos_from_time
  encode-decode ticks wide h =
      let (t, e, h_, m_, s_, n_) = time_from_nanos-parts (ticks * 100) wide (omega arith) in
      (
        t,
        ap (time_from_nanos crate w) (ticks_to_nanos_small ticks (omega arith)) ∙ e,
        rw (h_, m_, s_, n_) (omega arith),
      )
