-- ===== src/Calendar/Tests.antt =====
-- Runs of the calendar at concrete dates.
use gray_core.Base.{◌+◌, ◌-◌, ◌*◌, ◌%◌, ◌≤◌, ◌<◌, ◌≡◌, ◌↔◌, refl, arith, true}
use gray_core.Base.Int.{pos, negsuc, ◌-ℤ◌}
use gray_core.Calendar.{TimeUnits, is_leap_year, get_dow, get_doy}
use gray_core.Calendar.DayNumber.{
  day_number, days_before_year, days_before_year-eq, get_dow-day_number, get_doy-day_number,
}
use gray_core.Calendar.DosDate.{FitsDos, put_dos_date, get_dos_date, put_dos_date-get_dos_date}
use gray_core.Calendar.Dates.{IsDate, on_date, months_before_le, is_leap_year_le}
use gray_core.Calendar.Add.{add_days, add_seconds, add_months}
use gray_core.Calendar.Add.Forward.{Lands, add_days-forward}
use gray_core.Calendar.Add.Backward.{add_days-back_year}
use gray_core.Calendar.Add.Seconds.{at_second, LandsAt, add_seconds-forward}
use gray_core.Calendar.Add.Months.{add_months-forward}
use gray_core.Calendar.Dst.{is_in_dst1, is_in_dst1-rule, hour_index, IsSunday}

abbrev midnight : TimeUnits
midnight = record {
  year = pos 2000;
  month = pos 1;
  day = pos 1;
  hour = pos 0;
  minute = pos 0;
  second = pos 0;
  millisecond = pos 0;
  microsecond = pos 0;
  tz = pos 0;
}

christmas_eve : IsDate 2023 12 24
unfolding is_leap_year
christmas_eve = record {
  month_low = ground arith;
  month_high = ground arith;
  day_low = ground arith;
  day_high = ground arith;
}

early : day_number 2023 12 24 + 10 ≤ days_before_year 32768
unfolding day_number
early = omega (
  arith,
  days_before_year-eq 2023,
  days_before_year-eq 32768,
  months_before_le 2023 12,
  is_leap_year_le 2023,
)

add_days-forward_example :
    Lands midnight (add_days 11 (pos 10) (on_date midnight 2023 12 24)) (day_number 2023 12 24 + 10)
add_days-forward_example =
    add_days-forward 11 midnight 2023 12 24 10 christmas_eve early (omega arith)

add_days-back_year_example :
    Lands midnight
      (add_days 366 (negsuc 359) (on_date midnight 2023 12 24))
      (day_number 2024 1 1 - 360 - 1)
unfolding is_leap_year
add_days-back_year_example =
    add_days-back_year 366 midnight 2022 12 24 359 christmas_eve (omega arith) (omega arith)
      (omega arith) (omega arith)

add_seconds-forward_example :
    LandsAt midnight
      (add_seconds 2 (pos 100) (at_second (on_date midnight 2023 12 24) 86399))
      (day_number 2023 12 24 * 86400 + 86399 + 100)
add_seconds-forward_example =
    add_seconds-forward 2 midnight 2023 12 24 86399 100 christmas_eve (omega arith) (omega arith)
      (omega (arith, early)) (omega arith)

add_months-forward_example :
    add_months (pos 14) (on_date midnight 2023 12 24) ≡ on_date midnight 2025 2 24
add_months-forward_example =
    add_months-forward midnight 2023 12 24 14 (omega arith) (omega arith) (omega arith)

-- In 2023 summer time began on 12 March and ended on 5 November.
march_12 : IsSunday 2023 3 8 12
march_12 = record {
  not_before = omega arith;
  not_after = omega arith;
  sunday = unfold day_number days_before_year is_leap_year in refl;
}

november_5 : IsSunday 2023 11 1 5
november_5 = record {
  not_before = omega arith;
  not_after = omega arith;
  sunday = unfold day_number days_before_year is_leap_year in refl;
}

is_in_dst1-rule_example :
    (is_in_dst1 (record (on_date midnight 2023 12 24) { hour = pos 9 }) ≡ true)
    ↔ ((hour_index 3 12 2 ≤ hour_index 12 24 9) × (hour_index 12 24 9 < hour_index 11 5 2))
is_in_dst1-rule_example =
    is_in_dst1-rule midnight 2023 12 24 9 12 5 christmas_eve (omega arith) march_12 november_5

get_dow-day_number_example :
    (get_dow (pos 2023) (pos 12) (pos 24) ≡ pos ((day_number 2023 12 24 + 5) % 7))
    × (get_dow (pos 2000) (pos 1) (pos 1) ≡ pos 6)
get_dow-day_number_example = get_dow-day_number 2023 12 24 (omega arith) (omega arith)

get_doy-day_number_example :
    get_doy (pos 2023) (pos 12) (pos 24) ≡ pos (day_number 2023 12 24) -ℤ pos (day_number 2023 1 1)
get_doy-day_number_example = get_doy-day_number 2023 12 24 (omega arith) (omega arith) (omega arith)

abbrev evening : TimeUnits
evening = record (on_date midnight 2023 12 24) { hour = pos 20; minute = pos 15; second = pos 31 }

evening_fits : FitsDos evening 2023 12 24 20 15 31
evening_fits = record {
  year_is = refl;
  month_is = refl;
  day_is = refl;
  hour_is = refl;
  minute_is = refl;
  second_is = refl;
  month_fits = omega arith;
  day_fits = omega arith;
  hour_fits = omega arith;
  minute_fits = omega arith;
  second_fits = omega arith;
}

put_dos_date-get_dos_date_example :
    put_dos_date midnight (get_dos_date evening) ≡ record evening { second = pos 30 }
put_dos_date-get_dos_date_example =
    put_dos_date-get_dos_date evening midnight 2023 12 24 20 15 31 evening_fits (omega arith)
      (omega arith)
