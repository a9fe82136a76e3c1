-- ===== src/Examples/Texts.antt =====
-- Bytes and times as text.
use fractals.Prelude.{ℕ, ◌≡◌, refl, List, [], ◌∷◌, arith}
use fractals.Bytes.Hex.{hex_digit, bytes_to_hex, digit_value, read_hex, hex_to_bytes}
use fractals.TrackerResponse.{to_string, decimal}
use fractals.Durations.{
  Measurement, measure_loop, print, pp_time, in_seconds, IsReduced, Leads, pp_time-in_seconds,
}

abbrev three_bytes : List ℕ
three_bytes = 0 ∷ 171 ∷ 255 ∷ []

-- "00abff".
bytes_to_hex_three : bytes_to_hex three_bytes ≡ 48 ∷ 48 ∷ 97 ∷ 98 ∷ 102 ∷ 102 ∷ []
unfolding bytes_to_hex hex_digit
bytes_to_hex_three = refl

-- "-1" and an odd last digit.
hex_to_bytes_sign : hex_to_bytes (45 ∷ 49 ∷ 70 ∷ 102 ∷ 49 ∷ []) ≡ 255 ∷ 255 ∷ []
unfolding hex_to_bytes read_hex digit_value
hex_to_bytes_sign = refl

hex_to_bytes_three : hex_to_bytes (48 ∷ 48 ∷ 97 ∷ 98 ∷ 70 ∷ 70 ∷ []) ≡ three_bytes
unfolding hex_to_bytes read_hex digit_value
hex_to_bytes_three = refl

-- One hour, two minutes and five seconds, "1h2m5s".
pp_time_hour : pp_time 3725 ≡ 49 ∷ 104 ∷ 50 ∷ 109 ∷ 53 ∷ 115 ∷ []
unfolding pp_time measure_loop print to_string decimal
pp_time_hour = refl

-- Two minutes past a month and a second, "1m0d0h2m1s".
pp_time_month : pp_time 2592121 ≡ 49 ∷ 109 ∷ 48 ∷ 100 ∷ 48 ∷ 104 ∷ 50 ∷ 109 ∷ 49 ∷ 115 ∷ []
unfolding pp_time measure_loop print to_string decimal
pp_time_month = refl

pp_time-in_seconds_example :
    (measurements : List Measurement) × (pp_time 3725 ≡ print measurements)
    × (in_seconds measurements ≡ 3725)
    × IsReduced measurements
    × Leads measurements
pp_time-in_seconds_example = pp_time-in_seconds 3725 (omega arith)
