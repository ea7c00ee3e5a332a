-- ===== src/Clock.antt =====
-- Python's `date`, `time` and `datetime`: a day by its ordinal, a time of day and an offset from UTC
-- in microseconds. A naive `datetime` has no offset.
use korean_stock_trading_sys.Common.{
  ℕ, ◌+◌, ◌*◌, Bool, true, false, ℤ, pos, ◌+ℤ◌, ◌-ℤ◌, ltb_ℤ, leb_ℤ, Option, none, some,
}

pub record Datetime : Type 0 where
  -- `ts.date()`, `ts.time()`
  pub date : ℕ
  pub time : ℕ
  pub offset : Option ℤ

-- `ts.tzinfo is None`
abbrev pub is_naive : Datetime → Bool
is_naive ts = elim ts.offset [ none ↦ true | some _ ↦ false ]

abbrev pub offset_of : Datetime → ℤ
offset_of ts = elim ts.offset [ none ↦ pos 0 | some z ↦ z ]

abbrev pub day : ℕ
day = 86_400_000_000

-- Microseconds on the line of UTC.
unfoldable pub instant : Datetime → ℤ
unfolding ◌+ℤ◌ ◌-ℤ◌
instant ts = pos (ts.date * day) +ℤ pos ts.time -ℤ offset_of ts

-- Two aware values compare by their instants.
unfoldable pub before : Datetime → Datetime → Bool
before a b = ltb_ℤ (instant a) (instant b)

unfoldable pub not_after : Datetime → Datetime → Bool
not_after a b = leb_ℤ (instant a) (instant b)

-- `time(h, m)`
abbrev pub clock_time : ℕ → ℕ → ℕ
clock_time h m = (h * 60 + m) * 60_000_000

-- `timezone(timedelta(hours=9))`
abbrev pub kst : Option ℤ
kst = some (pos 32_400_000_000)
