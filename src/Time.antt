-- ===== src/Time.antt =====
-- crates/cbna-core/src/time.rs: the civil date of a timestamp.
pub mod Calendar
use custom_built_network_ana.Base.{
  ℕ, ◌+◌, ◌-◌, ◌*◌, ◌/◌, ◌%◌, ℤ, pos, negsuc, ◌+ℤ◌, pos_part, neg, scale, trunc_div, div_euclid,
  rem_euclid, ltb, leb, if◌then◌else◌, ltb_ℤ,
}

-- The era of 400 years, rounded down.
unfoldable pub era_of : ℤ → ℤ
unfolding ◌+ℤ◌
era_of z = trunc_div (if ltb_ℤ z (pos 0) then z +ℤ negsuc 146095 else z) 146097

-- The day of the era, which is 0 or more.
unfoldable pub doe_of : ℤ → ℕ
unfolding ◌+ℤ◌ era_of
doe_of z = pos_part (z +ℤ neg (scale (era_of z) 146097))

abbrev pub yoe_of : ℕ → ℕ
yoe_of doe = (doe - doe / 1460 + doe / 36524 - doe / 146096) / 365

abbrev pub doy_of : ℕ → ℕ
doy_of doe = doe - (365 * yoe_of doe + yoe_of doe / 4 - yoe_of doe / 100)

abbrev pub mp_of : ℕ → ℕ
mp_of doy = (5 * doy + 2) / 153

abbrev pub day_of : ℕ → ℕ
day_of doy = doy - (153 * mp_of doy + 2) / 5 + 1

abbrev pub month_of : ℕ → ℕ
month_of doy = if ltb (mp_of doy) 10 then mp_of doy + 3 else mp_of doy - 9

-- The year, the month and the day.
unfoldable pub year_of : ℤ → ℕ → ℤ
unfolding ◌+ℤ◌
year_of y month = if leb month 2 then y +ℤ pos 1 else y

unfoldable pub civil_from_days : ℤ → ℤ × ℕ × ℕ
unfolding ◌+ℤ◌ doe_of era_of year_of
civil_from_days days =
    let z : ℤ = days +ℤ pos 719468 in
    let doe : ℕ = doe_of z in
    let y : ℤ = pos (yoe_of doe) +ℤ scale (era_of z) 400 in
    (year_of y (month_of (doy_of doe)), month_of (doy_of doe), day_of (doy_of doe))

pub record Civil : Type 0 where
  pub date : ℤ × ℕ × ℕ
  pub hour : ℕ
  pub minute : ℕ
  pub second : ℕ

unfoldable pub civil_from_unix : ℤ → Civil
unfolding civil_from_days
civil_from_unix unix =
    let rest : ℕ = rem_euclid unix 86400 in
    record {
      date = civil_from_days (div_euclid unix 86400);
      hour = rest / 3600;
      minute = rest % 3600 / 60;
      second = rest % 60;
    }
