-- ===== src/Time/Calendar.antt =====
-- The date is the one that the Gregorian calendar counts.
use custom_built_network_ana.Base.{
  ℕ, ◌+◌, ◌-◌, ◌*◌, ◌/◌, ◌%◌, ◌≤◌, ◌<◌, ℤ, pos, ◌+ℤ◌, pos_part, scale, sub_ℕ, neg, negsuc, suc,
  trunc_div, ltb_ℤ, ◌≡◌, refl, sym, ap, ◌∙◌, arith, Bool, true, false, ◌&&◌, ◌||◌, not, leb, ◌==◌,
  if◌then◌else◌, if_true, if_false, on_if, subst,
}
use custom_built_network_ana.Time.{
  era_of, doe_of, yoe_of, doy_of, mp_of, day_of, month_of, year_of, civil_from_days, Civil,
  civil_from_unix,
}

-- A year of the calendar that starts in March, and the days before it since year 0.
abbrev march_year : ℕ → ℕ → ℕ
march_year year month = if leb month 2 then year - 1 else year

abbrev days_before : ℕ → ℕ
days_before y = 365 * y + y / 4 - y / 100 + y / 400

-- The days before a month since March: 0, 31, 61, 92, 122, 153, 184, 214, 245, 275, 306, 337.
abbrev month_start : ℕ → ℕ
month_start mp = (153 * mp + 2) / 5

abbrev march_month : ℕ → ℕ
march_month month = if leb month 2 then month + 9 else month - 3

-- The days since the first of March of year 0.
abbrev pub day_number : ℕ → ℕ → ℕ → ℕ
day_number year month day =
    days_before (march_year year month) + month_start (march_month month) + (day - 1)

abbrev pub is_leap : ℕ → Bool
is_leap y = (y % 4 == 0) && (not (y % 100 == 0) || (y % 400 == 0))

abbrev pub month_days : ℕ → ℕ → ℕ
month_days year month =
    if month == 2
    then if is_leap year then 29 else 28
    else if month == 4 || month == 6 || month == 9 || month == 11
    then 30
    else 31

sub_pos : (a b : ℕ) → b ≤ a → sub_ℕ a b ≡ pos (a - b)
sub_pos a b h = if_true (leb b a) _ (ground (arith, h))

pos_sum : (a b : ℕ) → pos a +ℤ pos b ≡ pos (a + b)
unfolding ◌+ℤ◌
pos_sum a b = sub_pos (a + b) (0 + 0) (omega arith) ∙ ap pos (omega arith)

scale_pos : (a k : ℕ) → scale (pos a) k ≡ pos (a * k)
scale_pos a k = sub_pos (a * k) (0 * k) (omega arith) ∙ ap pos (omega arith)

difference : (n m : ℕ) → m ≤ n → pos_part (pos n +ℤ neg (pos m)) ≡ n - m
unfolding ◌+ℤ◌
difference n m h =
    on_if (λ z. pos_part (pos n +ℤ z) ≡ n - m) (leb m 0) (pos (0 - m)) (negsuc (m - 0 - 1))
      (λ t. ap pos_part (sub_pos (n + (0 - m)) (0 + 0) (omega arith)) ∙ ground (arith, t))
      λ t.
        let some_days : 0 < m = ground (arith, t) in
        ap pos_part (sub_pos (n + 0) (0 + suc (m - 0 - 1)) (omega (arith, some_days, h)))
        ∙ omega (arith, some_days)

era_lem : (n : ℕ) → era_of (pos n) ≡ pos (n / 146097)
unfolding era_of
era_lem n =
    ap (λ z. trunc_div z 146097) (if_false (ltb_ℤ (pos n) (pos 0)) _ (ground arith))
    ∙ sub_pos (n / 146097) (0 / 146097) (omega arith)
    ∙ ap pos (omega arith)

doe_lem : (n : ℕ) → doe_of (pos n) ≡ n % 146097
unfolding doe_of
doe_lem n =
    ap (λ e. pos_part (pos n +ℤ neg (scale e 146097))) (era_lem n)
    ∙ ap (λ m. pos_part (pos n +ℤ neg m)) (scale_pos (n / 146097) 146097)
    ∙ difference n (n / 146097 * 146097) (omega arith)
    ∙ omega arith

yoe_lt : (doe : ℕ) → doe < 146097 → yoe_of doe < 400
yoe_lt doe h = omega arith

doy_le : (doe : ℕ) → doe < 146097 → doy_of doe ≤ 365
doy_le doe h = omega arith

year_le : (doe : ℕ) → doe < 146097 → 365 * yoe_of doe + yoe_of doe / 4 - yoe_of doe / 100 ≤ doe
year_le doe h = omega arith

-- The last day of the year of 366 days comes in leap years only.
leap_lem : (doe : ℕ) → doe < 146097 → doy_of doe ≡ 365 → is_leap (yoe_of doe + 1) ≡ true
leap_lem doe h e = ground (arith, h, e)

month_bounds : (doy : ℕ) → doy ≤ 365 → (1 ≤ month_of doy) × (month_of doy ≤ 12)
month_bounds doy h = (ground (arith, h), ground (arith, h))

day_bounds : (doy : ℕ) → doy ≤ 365 → (1 ≤ day_of doy) × (day_of doy ≤ 31)
day_bounds doy h = (omega arith, omega arith)

month_march : (doy : ℕ) → doy ≤ 365 → march_month (month_of doy) ≡ mp_of doy
month_march doy h = ground (arith, h)

days_lem :
    (e yoe : ℕ)
    → yoe < 400
    → days_before (400 * e + yoe) ≡ 146097 * e + (365 * yoe + yoe / 4 - yoe / 100)
days_lem e yoe h = omega arith

leap_era : (e y : ℕ) → is_leap (y + 1) ≡ true → is_leap (y + e * 400 + 1) ≡ true
leap_era e y h = ground (arith, h)

not_last : (doy : ℕ) (b : Bool) → doy ≤ 365 → (doy ≡ 365 → b ≡ true) → b ≡ false → doy ≤ 364
not_last doy true h leap e = absurd (cc)
not_last doy false h leap e = grind (arith, leap)

abbrev FitsIn : ℕ → ℕ → Type 0
FitsIn doy n = day_of doy ≤ n

month_days_lem :
    (year doy : ℕ)
    → doy ≤ 365
    → (doy ≡ 365 → is_leap year ≡ true)
    → day_of doy ≤ month_days year (month_of doy)
month_days_lem year doy h leap =
    on_if (FitsIn doy) (month_of doy == 2) _ _
      (λ t.
        on_if (FitsIn doy) (is_leap year) 29 28 (λ _. ground (arith, h, t))
          λ e. ground (arith, not_last doy (is_leap year) h leap e, t))
      λ _.
        on_if (FitsIn doy)
          (month_of doy == 4 || month_of doy == 6 || month_of doy == 9 || month_of doy == 11) 30 31
          (λ t. ground (arith, h, t)) λ _. (day_bounds doy h).1

start_le : (doy : ℕ) → doy ≤ 365 → month_start (mp_of doy) + (day_of doy - 1) ≡ doy
start_le doy h = omega arith

march_back : (y m : ℕ) → march_year (if leb m 2 then y + 1 else y) m ≡ y
march_back y m = ground arith

sum_lem :
    (e doe : ℕ)
    → doe < 146097
    → days_before (400 * e + yoe_of doe)
        + month_start (mp_of (doy_of doe))
        + (day_of (doy_of doe) - 1)
      ≡ 146097 * e + doe
sum_lem e doe h =
    ap (λ n. n + month_start (mp_of (doy_of doe)) + (day_of (doy_of doe) - 1))
      (days_lem e (yoe_of doe) (yoe_lt doe h))
    ∙ split_sum (146097 * e) _ _ _ (start_le (doy_of doe) (doy_le doe h)) (year_le doe h)
  where
    split_sum : (a y s d : ℕ) → s + d ≡ doe - y → y ≤ doe → a + y + s + d ≡ a + doe
    split_sum a y s d p q = omega (arith, p, q)

pushed : (t : Bool) (y : ℕ) → (if t then pos y +ℤ pos 1 else pos y) ≡ pos (if t then y + 1 else y)
pushed true y = pos_sum y 1
pushed false y = refl

-- A time since 1970, in seconds, as the calendar and the clock show it.
pub record IsCivil (unix : ℕ) (c : Civil) : Type 0 where
  pub year : ℕ
  pub same_year : c.date.0 ≡ pos year
  pub month : (1 ≤ c.date.1) × (c.date.1 ≤ 12)
  pub day : (1 ≤ c.date.2) × (c.date.2 ≤ month_days year c.date.1)
  pub time : (c.hour < 24) × ((c.minute < 60) × (c.second < 60))
  pub exact :
      day_number year c.date.1 c.date.2 * 86400 + c.hour * 3600 + c.minute * 60 + c.second
      ≡ unix + 719468 * 86400

module _ (days : ℕ) where
  abbrev k : ℕ
  k = days + 719468

  abbrev doe : ℕ
  doe = k % 146097

  abbrev month : ℕ
  month = month_of (doy_of doe)

  abbrev year_from : ℕ
  year_from = yoe_of doe + k / 146097 * 400

  abbrev year : ℕ
  year = if leb month 2 then year_from + 1 else year_from

  year_of_pos : (y m : ℕ) → year_of (pos y) m ≡ pos (if leb m 2 then y + 1 else y)
  unfolding year_of
  year_of_pos y m = pushed (leb m 2) y

  civil_from_days_lem : civil_from_days (pos days) ≡ (pos year, month, day_of (doy_of doe))
  unfolding civil_from_days
  civil_from_days_lem =
      rw
        (
          pos_sum days 719468,
          doe_lem k,
          era_lem k,
          scale_pos (k / 146097) 400,
          pos_sum (yoe_of doe) (k / 146097 * 400),
          year_of_pos year_from month,
        )
        refl

  in_era : doe < 146097
  in_era = omega arith

  swap : (e y : ℕ) → y + e * 400 ≡ 400 * e + y
  swap e y = omega arith

  day_number_lem : day_number year month (day_of (doy_of doe)) ≡ k
  day_number_lem =
      ap (λ y. days_before y + month_start (march_month month) + (day_of (doy_of doe) - 1))
        (march_back year_from month)
      ∙ ap (λ m. days_before year_from + month_start m + (day_of (doy_of doe) - 1))
          (month_march (doy_of doe) (doy_le doe in_era))
      ∙ ap (λ y. days_before y + month_start (mp_of (doy_of doe)) + (day_of (doy_of doe) - 1))
          (swap (k / 146097) (yoe_of doe))
      ∙ sum_lem (k / 146097) doe in_era
      ∙ omega arith

  leap_year : doy_of doe ≡ 365 → is_leap year ≡ true
  leap_year e =
      ap is_leap (if_true (leb month 2) year_from (ap (λ d. leb (month_of d) 2) e))
      ∙ leap_era (k / 146097) (yoe_of doe) (leap_lem doe in_era e)

  abbrev IsDate : ℤ × ℕ × ℕ → Type 0
  IsDate d =
      (y : ℕ) × (d.0 ≡ pos y)
      × ((1 ≤ d.1) × (d.1 ≤ 12))
      × ((1 ≤ d.2) × (d.2 ≤ month_days y d.1))
      × (day_number y d.1 d.2 ≡ k)

  civil_from_days-IsDate : IsDate (civil_from_days (pos days))
  civil_from_days-IsDate =
      let short = doy_le doe in_era in
      subst IsDate (sym civil_from_days_lem) (
        year,
        refl,
        month_bounds (doy_of doe) short,
        ((day_bounds (doy_of doe) short).0, month_days_lem year (doy_of doe) short leap_year),
        day_number_lem,
      )

clock_lem :
    (n d : ℕ)
    → d ≡ n / 86400 + 719468
    → d * 86400 + n % 86400 / 3600 * 3600 + n % 86400 % 3600 / 60 * 60 + n % 86400 % 60
      ≡ n + 719468 * 86400
clock_lem n d e = omega (arith, e)

-- From 1970 on, the date of a timestamp is a date of the Gregorian calendar, its day no later than its month
-- has in that year, leap years included, its time is a time of the day, and together they count the seconds
-- of the timestamp.
pub civil_from_unix-IsCivil : (unix : ℕ) → IsCivil unix (civil_from_unix (pos unix))
unfolding civil_from_unix
civil_from_unix-IsCivil unix =
    let date = civil_from_days-IsDate (unix / 86400) in
    record {
      year = date.0;
      same_year = date.1;
      month = date.2;
      day = date.3;
      time = (omega arith, (omega arith, omega arith));
      exact = clock_lem unix _ date.4;
    }
