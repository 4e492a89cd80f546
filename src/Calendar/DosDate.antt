-- ===== src/Calendar/DosDate.antt =====
-- `put_DosDate` and `get_DosDate` of src/cTimeUnits.cpp: a time packed into 32 bits, to two
-- seconds, for ZIP files and the FAT file system. A mask of the low bits is written `%`, a shift
-- `/` or `*`.
use Prim.Native.Nat.{bit_or}
use gray_core.Base.{
  ℕ, ◌+◌, ◌-◌, ◌*◌, ◌/◌, ◌%◌, ◌≤◌, ◌<◌, ◌≡◌, ◌∙◌, refl, ap, ltb, if◌then◌else◌, arith,
}
use gray_core.Base.Bits.{bit_or-high-low}
use gray_core.Base.Int.{ℤ, pos, pos_part, neg_part, quot}
use gray_core.Calendar.{TimeUnits}

abbrev u32 : ℕ
u32 = 0x1_0000_0000

-- The conversion to `UINT32`.
abbrev to_u32 : ℤ → ℕ
to_u32 a = (pos_part a % u32 + u32 - neg_part a % u32) % u32

unfoldable pub put_dos_date : TimeUnits → ℕ → TimeUnits
put_dos_date t dos =
    let fat_date = dos / 65536 in
    let fat_time = dos % 65536 in
    record t {
      year = pos (1980 + fat_date / 512);
      month = pos (fat_date / 32 % 16);
      day = pos (fat_date % 32);
      hour = pos (fat_time / 2048);
      minute = pos (fat_time / 32 % 64);
      second = pos (2 * (fat_time % 32));
    }

unfoldable pub get_dos_date : TimeUnits → ℕ
get_dos_date t =
    let y = to_u32 t.year in
    let year = if ltb 1980 y then y - 1980 else if ltb 80 y then y - 80 else y in
    let date = to_u32 t.day + 32 * to_u32 t.month + 512 * year in
    let time = to_u32 (quot t.second 2) + 32 * to_u32 t.minute + 2048 * to_u32 t.hour in
    bit_or (date * 65536 % u32) (time % u32)

-- The units that the 32 bits hold, each within the width of its field.
pub record FitsDos (t : TimeUnits) (y mo d h mi s : ℕ) : Type 0 where
  pub year_is : t.year ≡ pos y
  pub month_is : t.month ≡ pos mo
  pub day_is : t.day ≡ pos d
  pub hour_is : t.hour ≡ pos h
  pub minute_is : t.minute ≡ pos mi
  pub second_is : t.second ≡ pos s
  pub month_fits : mo < 16
  pub day_fits : d < 32
  pub hour_fits : h < 32
  pub minute_fits : mi < 64
  pub second_fits : s < 64

-- The year as it is packed: 1980 itself falls to the second test of the code.
abbrev packed_year : ℕ → ℕ
packed_year y = if ltb 1980 y then y - 1980 else 108

get_dos_date-eq :
    (t : TimeUnits) (y mo d h mi s : ℕ)
    → FitsDos t y mo d h mi s
    → 1980 ≤ y
    → y < 2108
    → get_dos_date t ≡ (d + 32 * mo + 512 * packed_year y) * 65536 + (s / 2 + 32 * mi + 2048 * h)
unfolding get_dos_date quot
get_dos_date-eq t y mo d h mi s f lo hi =
    ground (
      arith,
      f,
      bit_or-high-low 16 (d + 32 * mo + 512 * packed_year y) (s / 2 + 32 * mi + 2048 * h),
    )

-- put_DosDate undoes get_DosDate for units that fit into their fields, in the years after 1980
-- and before 2108, to the even second below, and leaves the parts of a second and the time
-- zone as they are in `into`.
pub put_dos_date-get_dos_date :
    (t into : TimeUnits) (y mo d h mi s : ℕ)
    → FitsDos t y mo d h mi s
    → 1980 < y
    → y < 2108
    → put_dos_date into (get_dos_date t) ≡ record into {
      year = t.year;
      month = t.month;
      day = t.day;
      hour = t.hour;
      minute = t.minute;
      second = pos (2 * (s / 2));
    }
unfolding put_dos_date
put_dos_date-get_dos_date t into y mo d h mi s f lo hi =
    rw
      (
        get_dos_date-eq t y mo d h mi s f (omega arith) hi,
        f.year_is,
        f.month_is,
        f.day_is,
        f.hour_is,
        f.minute_is,
      )
      (ground arith)

fields_of_dos :
    (t : TimeUnits) (dos : ℕ)
    → FitsDos
        (put_dos_date t dos)
        (1980 + dos / 65536 / 512)
        (dos / 65536 / 32 % 16)
        (dos / 65536 % 32)
        (dos % 65536 / 2048 % 32)
        (dos % 65536 / 32 % 64)
        (2 * (dos % 65536 % 32))
unfolding put_dos_date
fields_of_dos t dos = record {
  year_is = refl;
  month_is = refl;
  day_is = refl;
  hour_is = ap pos (omega arith);
  minute_is = refl;
  second_is = refl;
  month_fits = omega arith;
  day_fits = omega arith;
  hour_fits = omega arith;
  minute_fits = omega arith;
  second_fits = omega arith;
}

-- get_DosDate undoes put_DosDate on every 32-bit value, but for the values of the year 1980,
-- which it packs as the same date of 2088.
pub get_dos_date-put_dos_date :
    (t : TimeUnits) (dos : ℕ)
    → dos < 0x1_0000_0000
    → get_dos_date (put_dos_date t dos)
      ≡ (if ltb dos 0x200_0000 then dos + 108 * 0x200_0000 else dos)
get_dos_date-put_dos_date t dos h =
    get_dos_date-eq (put_dos_date t dos) _ _ _ _ _ _ (fields_of_dos t dos) (omega arith)
      (omega arith)
    ∙ ground arith
