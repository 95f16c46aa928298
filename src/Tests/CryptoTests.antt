-- ===== src/Tests/CryptoTests.antt =====
-- Checksums of short texts, and the id of the first of January 2014.
use gtools.Prelude.{get_or, ap, [], ◌∷◌, ◌≡◌, ◌≢◌, refl, arith, negsuc}
use gtools.Python.Exec.{ok, err, value_error}
use gtools.Python.Struct.Words.{of_word}
use gtools.Crypto.Hash.{
  proton_hash, hash_loop, hash_step, rolling_chksum, rolling_chksum_loop, rolling_chksum2,
  rolling_shift, rolling_shift_from, plain_sum, proton_hash_one_byte, rolling_shift_injective,
  rolling_chksum2-plain_sum,
}
use gtools.Crypto.Rid.{DateTime, time_word, extract_time, IsDate, extract_time-time_word}

hash_of_a : proton_hash (97 ∷ []) ≡ negsuc 1431655668
unfolding proton_hash hash_loop hash_step of_word
hash_of_a = refl

shifted : rolling_shift (250 ∷ 1 ∷ []) 10 ≡ 4 ∷ 12 ∷ []
unfolding rolling_shift rolling_shift_from
shifted = refl

checked : rolling_chksum (250 ∷ 1 ∷ []) 10 ≡ 41
unfolding rolling_chksum rolling_chksum_loop
checked = refl

proton_hash_one_byte_run : proton_hash (97 ∷ 98 ∷ 99 ∷ []) ≢ proton_hash (97 ∷ 100 ∷ 99 ∷ [])
proton_hash_one_byte_run =
    proton_hash_one_byte (97 ∷ []) (99 ∷ []) 98 100 (omega arith) (omega arith) (omega arith)

shifts_differ : rolling_shift (97 ∷ []) 158 ≢ rolling_shift (98 ∷ []) 158
shifts_differ =
    rolling_shift_injective (97 ∷ []) (98 ∷ []) 158 (omega arith, tt) (omega arith, tt)
      (λ e. absurd (omega (arith, ap (λ b. get_or b 0 0) e)))

rolling_chksum2-plain_sum_example : rolling_chksum2 (250 ∷ 1 ∷ []) 10 ≡ 272
unfolding plain_sum
rolling_chksum2-plain_sum_example = rolling_chksum2-plain_sum (250 ∷ 1 ∷ []) 10

abbrev new_year : DateTime
new_year = record { year = 2014; month = 1; day = 1; hour = 13; second = 7 }

new_year-IsDate : IsDate new_year
new_year-IsDate = record {
  from_2014 = omega arith;
  to_3391 = omega arith;
  month_from = omega arith;
  month_to = omega arith;
  day_from = omega arith;
  day_to = omega arith;
  hour_to = omega arith;
  second_to = omega arith;
}

bad_second : extract_time 60 ≡ err value_error
unfolding extract_time
bad_second = refl

extract_time-time_word_example :
    extract_time (time_word new_year)
    ≡ ok (record { year = 2014; month = 2; day = 2; hour = 13; second = 7 })
extract_time-time_word_example = extract_time-time_word new_year new_year-IsDate
