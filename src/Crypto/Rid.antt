-- ===== src/Crypto/Rid.antt =====
-- The first word of a request id, which `generate_rid` makes of the time, and the time that
-- `extract_time_from_rid` reads in it. The words are numbers here, not yet hexadecimal text.
use gtools.Prelude.{
  ℕ, ◌+◌, ◌-◌, ◌*◌, ◌/◌, ◌%◌, ◌<◌, ◌≤◌, ◌≡◌, ap, ◌∙◌, ltb, lt→ltb, if◌then◌else◌, arith,
}
use gtools.Python.Exec.{Result, ok, err, value_error}
use gtools.Crypto.Hash.{word}

pub record DateTime : Type 0 where
  pub year : ℕ
  pub month : ℕ
  pub day : ℕ
  pub hour : ℕ
  pub second : ℕ

-- `values[0]`: 1969378304 is taken away modulo 2 ^ 32.
unfoldable pub time_word : DateTime → ℕ
time_word t =
    (t.day * 86400
      + t.hour * 3600
      + t.second
      + (t.month + t.year * 12) * 259200
      + (word - 1969378304))
    % word

-- `datetime(...)` of these numbers: only the second can be out of its range.
abbrev pub datetime : DateTime → Result DateTime
datetime t = if ltb t.second 60 then ok t else err value_error

unfoldable pub extract_time : ℕ → Result DateTime
extract_time value0 = datetime (record {
  year = 2014 + value0 / 3600 / 24 / 3 / 12;
  month = value0 / 3600 / 24 / 3 % 12 + 1;
  day = value0 / 3600 / 24 % 3 + 1;
  hour = value0 / 3600 % 24;
  second = value0 % 3600;
})

pub record IsDate (t : DateTime) : Type 0 where
  pub from_2014 : 2014 ≤ t.year
  pub to_3391 : t.year ≤ 3391
  pub month_from : 1 ≤ t.month
  pub month_to : t.month ≤ 12
  pub day_from : 1 ≤ t.day
  pub day_to : t.day ≤ 31
  pub hour_to : t.hour < 24
  pub second_to : t.second < 60

abbrev pub months : DateTime → ℕ
months t = (t.year - 2014) * 12 + t.month + t.day / 3

time_word_lem :
    (t : DateTime)
    → IsDate t
    → time_word t ≡ ((months t * 3 + t.day % 3) * 24 + t.hour) * 3600 + t.second
unfolding time_word
time_word_lem t h = omega (
  arith, h.from_2014, h.to_3391, h.month_from, h.month_to, h.day_from, h.day_to, h.hour_to,
  h.second_to,
)

-- The digits of a number in the mixed base 3600, 24, 3.
extract_time_lem :
    (m d h s : ℕ)
    → d < 3
    → h < 24
    → s < 60
    → extract_time (((m * 3 + d) * 24 + h) * 3600 + s)
      ≡ ok (record { year = 2014 + m / 12; month = m % 12 + 1; day = d + 1; hour = h; second = s })
unfolding extract_time
extract_time_lem m d h s p q r = rw (seconds, hours, hour, days, day, month, lt→ltb s 60 r)
  where
    seconds : (((m * 3 + d) * 24 + h) * 3600 + s) % 3600 ≡ s
    seconds = omega arith

    hours : (((m * 3 + d) * 24 + h) * 3600 + s) / 3600 ≡ (m * 3 + d) * 24 + h
    hours = omega arith

    hour : ((m * 3 + d) * 24 + h) % 24 ≡ h
    hour = omega arith

    days : ((m * 3 + d) * 24 + h) / 24 ≡ m * 3 + d
    days = omega arith

    day : (m * 3 + d) % 3 ≡ d
    day = omega arith

    month : (m * 3 + d) / 3 ≡ m
    month = omega arith

-- The hour and the second come back; the day comes back modulo 3, plus 1, and the month one too late,
-- with a month more for every 3 days.
pub extract_time-time_word :
    (t : DateTime)
    → IsDate t
    → extract_time (time_word t)
      ≡ ok (record {
        year = 2014 + months t / 12;
        month = months t % 12 + 1;
        day = t.day % 3 + 1;
        hour = t.hour;
        second = t.second;
      })
extract_time-time_word t h =
    ap extract_time (time_word_lem t h)
    ∙ extract_time_lem (months t) (t.day % 3) t.hour t.second (omega arith) h.hour_to h.second_to
