-- ===== src/Utils/Timestamps.antt =====
-- lib/Utils.h: timestamps that are written and read.
use openfix.Prelude.{
  ℕ, ◌+◌, ◌*◌, ◌/◌, ◌%◌, ◌≤◌, ◌<◌, [], ◌∷◌, ◌++◌, ◌==◌, Bytes, take, int, long_zero, from_chars,
  ◌≡◌, inl, inr, refl, ap, ◌∙◌, arith, Bool-cases,
}
use mathlib.Core.Path.{subst}
use openfix.Prelude.Int.{pos, pos-+ℤ, pos-*ℤ}
use openfix.Utils.{
  of_int, parse_n, fraction, time_of_day, parse_utc_timestamp, PrefixCache, write_utc_timestamp,
}
use openfix.Utils.Calendar.{days_since_1970, civil_days-pos}

abbrev two : ℕ → Bytes → Bytes
two n rest = (48 + n / 10) ∷ (48 + n % 10) ∷ rest

abbrev four : ℕ → Bytes → Bytes
four n rest = (48 + n / 1000) ∷ (48 + n / 100 % 10) ∷ (48 + n / 10 % 10) ∷ (48 + n % 10) ∷ rest

-- "%Y%m%d-%H:%M:%S", with a rest behind it.
abbrev pub civil_text : ℕ → ℕ → ℕ → ℕ → ℕ → ℕ → Bytes → Bytes
civil_text year month day hour minute second rest =
    four year (two month (two day (45 ∷ two hour (58 ∷ two minute (58 ∷ two second rest)))))

abbrev millis : ℕ → Bytes
millis ms = (48 + ms / 100) ∷ (48 + ms / 10 % 10) ∷ (48 + ms % 10) ∷ []

of_int-int : (n : ℕ) → of_int (int n) ≡ pos n
of_int-int n = ground arith

from_chars-two : (n : ℕ) → n < 100 → from_chars (two n []) ≡ int n
unfolding from_chars
from_chars-two n h = ground (arith, h)

from_chars-millis : (n : ℕ) → n < 1000 → from_chars (millis n) ≡ int n
unfolding from_chars
from_chars-millis n h = ground (arith, h)

from_chars-four : (n : ℕ) → n < 10000 → from_chars (four n []) ≡ int n
unfolding from_chars
from_chars-four n h = ground (arith, h)

-- A date and a time of day as they are written: from 1970 to 9999, and a field of two digits.
pub record IsCivil (year month day hour minute second : ℕ) : Type 0 where
  pub year_from : 1970 ≤ year
  pub year_to : year ≤ 9999
  pub month_from : 1 ≤ month
  pub month_to : month ≤ 12
  pub day_from : 1 ≤ day
  pub day_to : day ≤ 31
  pub hour_to : hour ≤ 23
  pub minute_to : minute ≤ 59
  pub second_to : second ≤ 60

abbrev pub seconds_since_1970 : ℕ → ℕ → ℕ → ℕ → ℕ → ℕ → ℕ
seconds_since_1970 year month day hour minute second =
    days_since_1970 year month day * 86400 + hour * 3600 + minute * 60 + second

module _ (year month day hour minute second ms : ℕ) (c : IsCivil year month day hour minute second)
    (below : ms < 1000) where
  abbrev text : Bytes
  text = civil_text year month day hour minute second (46 ∷ millis ms)

  parse_year : parse_n text 0 4 ≡ pos year
  unfolding parse_n
  parse_year = rw (from_chars-four year (omega (arith, c.year_to))) (of_int-int year)

  parse_month : parse_n text 4 2 ≡ pos month
  unfolding parse_n
  parse_month = rw (from_chars-two month (omega (arith, c.month_to))) (of_int-int month)

  parse_day : parse_n text 6 2 ≡ pos day
  unfolding parse_n
  parse_day = rw (from_chars-two day (omega (arith, c.day_to))) (of_int-int day)

  parse_hour : parse_n text 9 2 ≡ pos hour
  unfolding parse_n
  parse_hour = rw (from_chars-two hour (omega (arith, c.hour_to))) (of_int-int hour)

  parse_minute : parse_n text 12 2 ≡ pos minute
  unfolding parse_n
  parse_minute = rw (from_chars-two minute (omega (arith, c.minute_to))) (of_int-int minute)

  parse_second : parse_n text 15 2 ≡ pos second
  unfolding parse_n
  parse_second = rw (from_chars-two second (omega (arith, c.second_to))) (of_int-int second)

  fraction-text : fraction text ≡ pos ms
  unfolding fraction
  fraction-text = rw (from_chars-millis ms below) (of_int-int ms)

  time_of_day-text : time_of_day text ≡ pos (hour * 3600000 + minute * 60000 + second * 1000)
  unfolding time_of_day
  time_of_day-text = rw parse_hour (
      rw parse_minute (
        rw parse_second (
          rw (pos-*ℤ hour 3600000) (
            rw (pos-*ℤ minute 60000) (
              rw (pos-*ℤ second 1000) (
                rw (pos-+ℤ (hour * 3600000) (minute * 60000))
                  (pos-+ℤ (hour * 3600000 + minute * 60000) (second * 1000))))))))

  -- Reading a timestamp of a date from 1970 on gives the milliseconds that have passed since then,
  -- counted by the lengths of the years and months.
  pub parse_utc_timestamp-civil_text :
      parse_utc_timestamp text
      ≡ long_zero + (seconds_since_1970 year month day hour minute second * 1000 + ms)
  unfolding parse_utc_timestamp
  parse_utc_timestamp-civil_text =
      let days = days_since_1970 year month day in
      let time = hour * 3600000 + minute * 60000 + second * 1000 in
      rw parse_year (
        rw parse_month (
          rw parse_day (
            rw (civil_days-pos year month day c.year_from c.month_from c.month_to c.day_from) (
              rw time_of_day-text (
                rw fraction-text (
                  rw (pos-*ℤ days 86400000) (
                    rw (pos-+ℤ (days * 86400000) time)
                      (rw (pos-+ℤ (days * 86400000 + time) ms) (omega arith)))))))))

-- The prefix that is kept belongs to its second.
abbrev pub IsCached : (ℕ → Bytes) → PrefixCache → Type 0
IsCached format cache = take 17 cache.cached_prefix ≡ take 17 (format cache.cached_s)

write_utc_timestamp-IsCached :
    (format : ℕ → Bytes) (epoch_ms : ℕ) (cache : PrefixCache)
    → IsCached format cache
    → IsCached format (write_utc_timestamp format epoch_ms cache).1
      × ((write_utc_timestamp format epoch_ms cache).0
          ≡ take 17 (format (epoch_ms / 1000)) ++ 46 ∷ millis (epoch_ms % 1000))
unfolding write_utc_timestamp
write_utc_timestamp-IsCached format epoch_ms cache valid =
    elim (Bool-cases ((epoch_ms / 1000) == cache.cached_s)) [
      | inl same ↦
          let e : cache.cached_s ≡ epoch_ms / 1000 = ground (arith, same) in
          let kept = subst (λ k. take 17 cache.cached_prefix ≡ take 17 (format k)) e valid in
          rw same (valid, ap (λ p. p ++ 46 ∷ millis (epoch_ms % 1000)) kept)
      | inr other ↦ rw other (refl, refl)
    ]

-- A time that writeUTCTimestamp writes is read back by parseUTCTimestamp, whether the prefix comes
-- from the cache or is made, where the cache belongs to its second and the C library writes for the
-- second the date and the time of day that it has by the lengths of years and months; and the cache
-- belongs to its second afterwards.
pub parse_utc_timestamp-write_utc_timestamp :
    (format : ℕ → Bytes) (epoch_ms : ℕ) (cache : PrefixCache)
    (year month day hour minute second : ℕ)
    → IsCached format cache
    → IsCivil year month day hour minute second
    → seconds_since_1970 year month day hour minute second ≡ epoch_ms / 1000
    → format (epoch_ms / 1000) ≡ civil_text year month day hour minute second []
    → (parse_utc_timestamp (write_utc_timestamp format epoch_ms cache).0 ≡ long_zero + epoch_ms)
      × IsCached format (write_utc_timestamp format epoch_ms cache).1
parse_utc_timestamp-write_utc_timestamp format epoch_ms cache year month day hour minute second
      valid c passed formatted =
    let written = write_utc_timestamp-IsCached format epoch_ms cache valid in
    let prefix = ap (λ p. take 17 p ++ 46 ∷ millis (epoch_ms % 1000)) formatted in
    let read =
      parse_utc_timestamp-civil_text year month day hour minute second (epoch_ms % 1000) c
        (omega arith) in
    (
      ap parse_utc_timestamp (written.1 ∙ prefix)
          ∙ read
          ∙ ap (λ n. long_zero + n) (omega (arith, passed)),
      written.0,
    )
