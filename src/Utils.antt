-- ===== src/Utils.antt =====
-- lib/Utils.h: parseUTCTimestamp and writeUTCTimestamp. The former's ints and longs are integers here: a field of a timestamp has
-- four characters at most and a fraction is an int, so that no sum or product leaves its range.
pub mod Calendar
pub mod Timestamps
use openfix.Prelude.{
  ℕ, zero, suc, ◌+◌, ◌-◌, ◌/◌, ◌%◌, Bool, true, false, not, ◌&&◌, List, [], ◌∷◌, ◌++◌, ◌==◌, ltb,
  leb, if◌then◌else◌, Bytes, length, take, drop, int_zero, long_zero, from_chars,
}
use openfix.Prelude.Int.{ℤ, pos, negsuc, pos_part, neg_part, sub_ℕ, ◌+ℤ◌, ◌-ℤ◌, ◌*ℤ◌, ◌/ℤ◌, ltb_ℤ}

-- The integer that a code stands for, and the code of a long.
abbrev pub of_int : ℕ → ℤ
of_int code = sub_ℕ code int_zero

abbrev pub to_long : ℤ → ℕ
to_long (pos n) = long_zero + n
to_long (negsuc n) = long_zero - suc n

-- The lambda parseN.
unfoldable pub parse_n : Bytes → ℕ → ℕ → ℤ
unfolding from_chars
parse_n timestamp from len = of_int (from_chars (take len (drop from timestamp)))

-- The calendar algorithm: the era, the year of the era, the day of the year, which begins in
-- March, and the day of the era. `early` stands for `month <= 2`.
unfoldable pub era : ℤ → ℤ
unfolding ◌-ℤ◌ ◌/ℤ◌
era y = (if ltb_ℤ y (pos 0) then y -ℤ pos 399 else y) /ℤ 400

unfoldable pub year_of_era : ℤ → ℤ
unfolding era ◌-ℤ◌ ◌*ℤ◌
year_of_era y = y -ℤ era y *ℤ 400

unfoldable pub day_of_year : Bool → ℤ → ℤ → ℤ
unfolding ◌+ℤ◌ ◌-ℤ◌ ◌*ℤ◌ ◌/ℤ◌
day_of_year early month day =
    ((if early then month +ℤ pos 9 else month -ℤ pos 3) *ℤ 153 +ℤ pos 2) /ℤ 5 +ℤ day -ℤ pos 1

unfoldable pub day_of_era : ℤ → ℤ → ℤ
unfolding ◌+ℤ◌ ◌-ℤ◌ ◌*ℤ◌ ◌/ℤ◌
day_of_era yoe doy = yoe *ℤ 365 +ℤ yoe /ℤ 4 -ℤ yoe /ℤ 100 +ℤ doy

-- The days since 1970 of a date.
unfoldable pub civil_days : ℤ → ℤ → ℤ → ℤ
unfolding era year_of_era day_of_year day_of_era ◌+ℤ◌ ◌-ℤ◌ ◌*ℤ◌
civil_days year month day =
    let early = not (ltb_ℤ (pos 2) month) in
    let y = year -ℤ (if early then pos 1 else pos 0) in
    era y *ℤ 146097 +ℤ day_of_era (year_of_era y) (day_of_year early month day) -ℤ pos 719468

-- The two loops over the digits of a fraction.
unfoldable pub times_ten : ℕ → ℤ → ℤ
unfolding ◌*ℤ◌
times_ten zero frac = frac
times_ten (suc n) frac = times_ten n (frac *ℤ 10)

unfoldable pub over_ten : ℕ → ℤ → ℤ
unfolding ◌/ℤ◌
over_ten zero frac = frac
over_ten (suc n) frac = over_ten n (frac /ℤ 10)

starts_with_dot : Bytes → Bool
starts_with_dot [] = false
starts_with_dot (c ∷ s) = c == 46

unfoldable pub fraction : Bytes → ℤ
unfolding starts_with_dot times_ten over_ten from_chars
fraction timestamp =
    let digits = drop 18 timestamp in
    let frac = of_int (from_chars digits) in
    if ltb 18 (length timestamp) && starts_with_dot (drop 17 timestamp)
    then (if leb (length digits) 3
        then times_ten (3 - length digits) frac
        else over_ten (length digits - 3) frac)
    else pos 0

-- The time of day, in milliseconds.
unfoldable pub time_of_day : Bytes → ℤ
unfolding parse_n ◌+ℤ◌ ◌*ℤ◌
time_of_day timestamp =
    parse_n timestamp 9 2 *ℤ 3600000
    +ℤ parse_n timestamp 12 2 *ℤ 60000
    +ℤ parse_n timestamp 15 2 *ℤ 1000

-- Utils::parseUTCTimestamp, as the code of a long.
unfoldable pub parse_utc_timestamp : Bytes → ℕ
unfolding parse_n civil_days time_of_day fraction ◌+ℤ◌ ◌*ℤ◌
parse_utc_timestamp timestamp =
    if ltb (length timestamp) 17
    then long_zero
    else to_long (
        civil_days (parse_n timestamp 0 4) (parse_n timestamp 4 2) (parse_n timestamp 6 2)
          *ℤ 86400000
        +ℤ time_of_day timestamp
        +ℤ fraction timestamp)

-- The prefix that a thread keeps for writeUTCTimestamp: `cached_s2` and `cached_prefix2`, of which
-- the first 17 bytes are used.
pub record PrefixCache : Type 0 where
  pub cached_s : ℕ
  pub cached_prefix : Bytes

-- Utils::writeUTCTimestamp of a time that is not negative; `format` is gmtime_r with strftime.
unfoldable pub write_utc_timestamp : (ℕ → Bytes) → ℕ → PrefixCache → Bytes × PrefixCache
write_utc_timestamp format epoch_ms cache =
    let epoch_s = epoch_ms / 1000 in
    let ms = epoch_ms % 1000 in
    let cache' : PrefixCache =
      if epoch_s == cache.cached_s
      then cache
      else record { cached_s = epoch_s; cached_prefix = format epoch_s } in
    (
      take 17 cache'.cached_prefix
          ++ 46 ∷ (48 + ms / 100) ∷ (48 + ms / 10 % 10) ∷ (48 + ms % 10) ∷ [],
      cache',
    )
