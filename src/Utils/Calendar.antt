-- ===== src/Utils/Calendar.antt =====
-- The Gregorian calendar, counted day by day, and the calendar algorithm of lib/Utils.h.
use openfix.Prelude.{
  ℕ, zero, suc, ◌+◌, ◌-◌, ◌*◌, ◌/◌, ◌%◌, ◌≤◌, Bool, true, false, not, ◌&&◌, ◌||◌, ◌==◌,
  if◌then◌else◌, List, [], ◌∷◌, ◌≡◌, inl, inr, refl, ap, ◌∙◌, arith, Bool-cases, leb,
}
use mathlib.Core.Path.{subst}
use openfix.Prelude.Int.{pos, ltb_ℤ, ◌+ℤ◌, ◌-ℤ◌, ◌*ℤ◌, pos-+ℤ, pos--ℤ, pos-*ℤ, pos-/ℤ}
use openfix.Utils.{era, year_of_era, day_of_year, day_of_era, civil_days}

-- The Gregorian rule, and the lengths of years and months.
abbrev pub is_leap : ℕ → Bool
is_leap y = (y % 400 == 0) || (not (y % 100 == 0) && (y % 4 == 0))

abbrev pub days_in_year : ℕ → ℕ
days_in_year y = 365 + (if is_leap y then 1 else 0)

abbrev occurs : ℕ → List ℕ → Bool
occurs m [] = false
occurs m (x ∷ xs) = if x == m then true else occurs m xs

abbrev pub days_in_month : ℕ → ℕ → ℕ
days_in_month year month =
    let february : ℕ = if is_leap year then 29 else 28 in
    let other : ℕ = if occurs month (4 ∷ 6 ∷ 9 ∷ 11 ∷ []) then 30 else 31 in
    if month == 2 then february else other

-- The days of the first years from 1970 on, and of the first months of a year.
unfoldable pub days_of_years : ℕ → ℕ
days_of_years zero = 0
days_of_years (suc n) = days_of_years n + days_in_year (1970 + n)

unfoldable pub days_of_months : ℕ → ℕ → ℕ
days_of_months y zero = 0
days_of_months y (suc m) = days_of_months y m + days_in_month y (m + 1)

-- The days from the first of January 1970 to a date.
abbrev pub days_since_1970 : ℕ → ℕ → ℕ → ℕ
days_since_1970 y m d = days_of_years (y - 1970) + days_of_months y (m - 1) + (d - 1)

-- Leap years up to a year.
abbrev leaps : ℕ → ℕ
leaps y = y / 4 - y / 100 + y / 400

leap_step : (x : ℕ) → leaps (x + 1) ≡ leaps x + (if is_leap (x + 1) then 1 else 0)
leap_step x = ground arith

year_numbers :
    (d l l' : ℕ) (leap : Bool) (n : ℕ)
    → d + 719162 ≡ (n + 1969) * 365 + l
    → l' ≡ l + (if leap then 1 else 0)
    → d + (365 + (if leap then 1 else 0)) + 719162 ≡ (n + 1969 + 1) * 365 + l'
year_numbers d l l' true n e s = omega (arith, e, s)
year_numbers d l l' false n e s = omega (arith, e, s)

days_of_years_lem : (n : ℕ) → days_of_years n + 719162 ≡ (n + 1969) * 365 + leaps (n + 1969)
unfolding days_of_years
days_of_years_lem zero = refl
days_of_years_lem (suc n) =
    let e : 1970 + n ≡ n + 1969 + 1 = omega arith in
    let e' : suc n + 1969 ≡ n + 1969 + 1 = omega arith in
    rw e (
      rw e' (
        year_numbers _ _ _ (is_leap (n + 1969 + 1)) n (days_of_years_lem n) (leap_step (n + 1969))))

era-pos : (n : ℕ) → era (pos n) ≡ pos (n / 400)
unfolding era
era-pos n = let e : ltb_ℤ (pos n) (pos 0) ≡ false = ground arith in rw e (pos-/ℤ n 400)

year_of_era-pos : (n : ℕ) → year_of_era (pos n) ≡ pos (n % 400)
unfolding year_of_era
year_of_era-pos n =
    rw (era-pos n)
      (rw (pos-*ℤ (n / 400) 400) (pos--ℤ n (n / 400 * 400) (omega arith) ∙ ap pos (omega arith)))

-- The days of a year that begins in March before a month, and those of its months.
abbrev before_month : ℕ → ℕ
before_month m = (m * 153 + 2) / 5

day_of_year-early :
    (m d : ℕ) → 1 ≤ d → day_of_year true (pos m) (pos d) ≡ pos (before_month (m + 9) + d - 1)
unfolding day_of_year
day_of_year-early m d h = rw (pos-+ℤ m 9) (
    rw (pos-*ℤ (m + 9) 153) (
      rw (pos-+ℤ ((m + 9) * 153) 2) (
        rw (pos-/ℤ ((m + 9) * 153 + 2) 5) (
          rw (pos-+ℤ (before_month (m + 9)) d)
            (pos--ℤ (before_month (m + 9) + d) 1 (omega (arith, h)))))))

day_of_year-late :
    (m d : ℕ)
    → 3 ≤ m
    → 1 ≤ d
    → day_of_year false (pos m) (pos d) ≡ pos (before_month (m - 3) + d - 1)
unfolding day_of_year
day_of_year-late m d l h = rw (pos--ℤ m 3 l) (
    rw (pos-*ℤ (m - 3) 153) (
      rw (pos-+ℤ ((m - 3) * 153) 2) (
        rw (pos-/ℤ ((m - 3) * 153 + 2) 5) (
          rw (pos-+ℤ (before_month (m - 3)) d)
            (pos--ℤ (before_month (m - 3) + d) 1 (omega (arith, h)))))))

day_of_era-pos :
    (yoe doy : ℕ) → day_of_era (pos yoe) (pos doy) ≡ pos (yoe * 365 + yoe / 4 - yoe / 100 + doy)
unfolding day_of_era
day_of_era-pos yoe doy = rw (pos-*ℤ yoe 365) (
    rw (pos-/ℤ yoe 4) (
      rw (pos-/ℤ yoe 100) (
        rw (pos-+ℤ (yoe * 365) (yoe / 4)) (
          rw (pos--ℤ (yoe * 365 + yoe / 4) (yoe / 100) (omega arith))
            (pos-+ℤ (yoe * 365 + yoe / 4 - yoe / 100) doy)))))

-- The last steps, from a year that begins in March and the day of that year.
from_march :
    (y doy : ℕ)
    → 719468 ≤ y * 365 + leaps y + doy
    → era (pos y) *ℤ 146097 +ℤ day_of_era (year_of_era (pos y)) (pos doy) -ℤ pos 719468
      ≡ pos (y * 365 + leaps y + doy - 719468)
from_march y doy h = rw (era-pos y) (
    rw (year_of_era-pos y) (
      rw (day_of_era-pos (y % 400) doy) (
        rw (pos-*ℤ (y / 400) 146097) (
          rw (pos-+ℤ (y / 400 * 146097) (y % 400 * 365 + y % 400 / 4 - y % 400 / 100 + doy))
            (let e = one_era y doy in rw e (pos--ℤ (y * 365 + leaps y + doy) 719468 h))))))
  where
    one_era :
        (y doy : ℕ)
        → y / 400 * 146097 + (y % 400 * 365 + y % 400 / 4 - y % 400 / 100 + doy)
          ≡ y * 365 + leaps y + doy
    one_era y doy = omega arith

months_early : (y m : ℕ) → 1 ≤ m → m ≤ 2 → days_of_months y (m - 1) + 306 ≡ before_month (m + 9)
unfolding days_of_months
months_early y zero h l = absurd (omega (arith, h))
months_early y (suc zero) h l = refl
months_early y (suc (suc zero)) h l = refl
months_early y (suc (suc (suc m))) h l = absurd (omega (arith, l))

months_late :
    (y m : ℕ)
    → 3 ≤ m
    → m ≤ 12
    → days_of_months y (m - 1) ≡ before_month (m - 3) + 59 + (if is_leap y then 1 else 0)
unfolding days_of_months
months_late y zero h l = absurd (omega (arith, h))
months_late y (suc zero) h l = absurd (omega (arith, h))
months_late y (suc (suc zero)) h l = absurd (omega (arith, h))
months_late y (suc (suc (suc zero))) h l = ground arith
months_late y (suc (suc (suc (suc zero)))) h l = ground arith
months_late y (suc (suc (suc (suc (suc zero))))) h l = ground arith
months_late y (suc (suc (suc (suc (suc (suc zero)))))) h l = ground arith
months_late y (suc (suc (suc (suc (suc (suc (suc zero))))))) h l = ground arith
months_late y (suc (suc (suc (suc (suc (suc (suc (suc zero)))))))) h l = ground arith
months_late y (suc (suc (suc (suc (suc (suc (suc (suc (suc zero))))))))) h l = ground arith
months_late y (suc (suc (suc (suc (suc (suc (suc (suc (suc (suc zero)))))))))) h l = ground arith
months_late y (suc (suc (suc (suc (suc (suc (suc (suc (suc (suc (suc zero))))))))))) h l =
    ground arith
months_late y (suc (suc (suc (suc (suc (suc (suc (suc (suc (suc (suc (suc zero)))))))))))) h l =
    ground arith
months_late y (suc (suc (suc (suc (suc (suc (suc (suc (suc (suc (suc (suc (suc m))))))))))))) h l =
    absurd (omega (arith, l))

-- The years that begin in March, by their numbers; `p` and `t` are the leap years up to the year
-- before and up to the year.
years_before :
    (y : ℕ) → 1970 ≤ y → days_of_years (y - 1970) + 719162 ≡ (y - 1) * 365 + leaps (y - 1)
years_before y h =
    let same : y - 1970 + 1969 ≡ y - 1 = omega (arith, h) in
    subst (λ k. days_of_years (y - 1970) + 719162 ≡ k * 365 + leaps k) same
      (days_of_years_lem (y - 1970))

leaps_of : (y : ℕ) → 1 ≤ y → leaps y ≡ leaps (y - 1) + (if is_leap y then 1 else 0)
leaps_of y h =
    let same : y - 1 + 1 ≡ y = omega (arith, h) in
    subst (λ k. leaps k ≡ leaps (y - 1) + (if is_leap k then 1 else 0)) same (leap_step (y - 1))

early_numbers :
    (y m d days p months b : ℕ)
    → 1970 ≤ y
    → 1 ≤ d
    → days + 719162 ≡ (y - 1) * 365 + p
    → months + 306 ≡ b
    → (719468 ≤ (y - 1) * 365 + p + (b + d - 1))
      × ((y - 1) * 365 + p + (b + d - 1) - 719468 ≡ days + months + (d - 1))
early_numbers y m d days p months b hy hd e e' =
    (omega (arith, hy, hd, e, e'), omega (arith, hy, hd, e, e'))

late_numbers :
    (y d days p t months b leap : ℕ)
    → 1970 ≤ y
    → 1 ≤ d
    → days + 719162 ≡ (y - 1) * 365 + p
    → t ≡ p + leap
    → months ≡ b + 59 + leap
    → (719468 ≤ y * 365 + t + (b + d - 1))
      × (y * 365 + t + (b + d - 1) - 719468 ≡ days + months + (d - 1))
late_numbers y d days p t months b leap hy hd e e' e'' =
    (omega (arith, hy, hd, e, e', e''), omega (arith, hy, hd, e, e', e''))

civil_days-early :
    (y m d : ℕ)
    → 1970 ≤ y
    → 1 ≤ m
    → m ≤ 2
    → 1 ≤ d
    → civil_days (pos y) (pos m) (pos d) ≡ pos (days_since_1970 y m d)
unfolding civil_days
civil_days-early y m d hy hm le hd =
    let e : ltb_ℤ (pos 2) (pos m) ≡ false = ground (arith, le) in
    let n =
      early_numbers y m d (days_of_years (y - 1970)) (leaps (y - 1)) (days_of_months y (m - 1))
        (before_month (m + 9)) hy hd (years_before y hy) (months_early y m hm le) in
    rw e (
      rw (pos--ℤ y 1 (omega (arith, hy))) (
        rw (day_of_year-early m d hd)
          (from_march (y - 1) (before_month (m + 9) + d - 1) n.0 ∙ ap pos n.1)))

civil_days-late :
    (y m d : ℕ)
    → 1970 ≤ y
    → 3 ≤ m
    → m ≤ 12
    → 1 ≤ d
    → civil_days (pos y) (pos m) (pos d) ≡ pos (days_since_1970 y m d)
unfolding civil_days
civil_days-late y m d hy le hm hd =
    let e : ltb_ℤ (pos 2) (pos m) ≡ true = ground (arith, le) in
    let n =
      late_numbers y d (days_of_years (y - 1970)) (leaps (y - 1)) (leaps y)
        (days_of_months y (m - 1)) (before_month (m - 3)) (if is_leap y then 1 else 0) hy hd
        (years_before y hy) (leaps_of y (omega (arith, hy))) (months_late y m le hm) in
    let same : y - 0 ≡ y = omega arith in
    rw e (
      rw (pos--ℤ y 0 (omega arith)) (
        rw same (
          rw (day_of_year-late m d le hd)
            (from_march y (before_month (m - 3) + d - 1) n.0 ∙ ap pos n.1))))

-- From 1970 on the calendar algorithm counts the days.
pub civil_days-pos :
    (y m d : ℕ)
    → 1970 ≤ y
    → 1 ≤ m
    → m ≤ 12
    → 1 ≤ d
    → civil_days (pos y) (pos m) (pos d) ≡ pos (days_since_1970 y m d)
civil_days-pos y m d hy hm hm' hd = elim (Bool-cases (leb m 2)) [
  | inl early ↦ civil_days-early y m d hy hm (ground (arith, early)) hd
  | inr late ↦ civil_days-late y m d hy (ground (arith, late)) hm' hd
]
