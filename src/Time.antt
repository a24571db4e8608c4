-- ===== src/Time.antt =====
-- time.Time and time.Duration of the Go library, in nanoseconds.
-- A Time is counted from an instant 2 ^ 58 minutes before the zero Time (1 January of year 1), so
-- that every Time that the type holds is a natural number, and a whole minute since the zero Time is
-- a whole minute of the count. Monotonic clock readings are not modelled.
use exchange_data_importer.Prelude.{ℕ, ◌+◌, ◌-◌, ◌*◌, ◌%◌, ◌^◌, Bool, ltb, ◌==◌, if◌then◌else◌}
use exchange_data_importer.Prelude.Int.{
  ℤ, pos, negsuc, pos_part, neg_part, sub_ℕ, ◌*ℤ◌, quot, wrap_int64,
}

abbrev pub Time : Type 0
Time = ℕ

abbrev pub nanosecond : ℕ
nanosecond = 1

abbrev pub millisecond : ℕ
millisecond = 10 ^ 6

abbrev pub second : ℕ
second = 10 ^ 9

abbrev pub minute : ℕ
minute = 60 * 10 ^ 9

abbrev pub zero_time : Time
zero_time = 2 ^ 58 * (60 * 10 ^ 9)

-- 1 January 1970, 719162 days after the zero Time.
abbrev pub unix_epoch : Time
unix_epoch = zero_time + 719162 * 24 * 60 * (60 * 10 ^ 9)

abbrev pub is_zero : Time → Bool
is_zero t = t == zero_time

-- `t.After(u)`, `t.Before(u)` and `t.Equal(u)`.
abbrev pub after : Time → Time → Bool
after t u = ltb u t

abbrev pub before : Time → Time → Bool
before t u = ltb t u

abbrev pub same_time : Time → Time → Bool
same_time t u = t == u

-- `t.Add(-d)` for a duration `d` that is not negative.
abbrev pub back : Time → ℕ → Time
back t d = t - d

-- `t.Truncate(d)` for a `d` that divides a minute.
abbrev pub truncate : Time → ℕ → Time
truncate t d = t - t % d

-- `t.Sub(u)`: the difference, held inside an int64.
abbrev pub max_duration : ℕ
max_duration = 2 ^ 63 - 1

abbrev pub saturate : ℤ → ℤ
saturate (pos n) = if ltb max_duration n then pos max_duration else pos n
saturate (negsuc n) = if ltb max_duration n then negsuc max_duration else negsuc n

abbrev pub sub_time : Time → Time → ℤ
sub_time t u = saturate (sub_ℕ t u)

-- `d.Milliseconds()`.
abbrev pub milliseconds : ℤ → ℤ
milliseconds d = quot d (10 ^ 6)

-- `time.Unix(0, ms*int64(time.Millisecond))`: the product wraps round as an int64.
unfoldable pub unix_ms : ℤ → Time
unix_ms ms = let d = wrap_int64 (ms *ℤ pos (10 ^ 6)) in unix_epoch + pos_part d - neg_part d
