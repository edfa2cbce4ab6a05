-- ===== src/Examples/Adapter.antt =====
-- The USB adapter: its clock, and its transfers on the handle that takes 3 bytes at a time.
use xvc_rs.Prelude.{
  ℕ, ◌+◌, ◌*◌, ◌/◌, ◌^◌, ◌<◌, ◌≤◌, ◌≡◌, refl, some, [], ◌∷◌, ◌++◌, arith, Bytes, Outcome, ok,
}
use xvc_rs.Errors.{IoError}
use xvc_rs.Ftdi.Clock.{
  divider, set_clock_speed, count_for_frequency, count_for_frequency_bounds, set_tck, set_tck-ge,
}
use xvc_rs.Ftdi.Usb.{write, read}
use xvc_rs.Ftdi.Usb.Write.{Writes, takes, Written, write-Written}
use xvc_rs.Ftdi.Usb.Read.{gives, ReadEnd, read-ReadEnd}
use xvc_rs.Examples.Devices.{adapter}

abbrev register : ℕ → ℕ → Outcome IoError (Unit {0}) × ℕ
register count h = (ok tt, count)

count_for_frequency_bounds_example :
    ((count_for_frequency 0).0 < 2 ^ 16)
    × (457 ≤ (count_for_frequency 0).1)
    × ((count_for_frequency 0).1 ≤ 30000000)
count_for_frequency_bounds_example = count_for_frequency_bounds 0

-- 34 ns are answered with 66, although the adapter reaches 33.
answer_34 : set_tck {E = IoError} register 34 0 ≡ (ok 66, 1)
unfolding set_tck set_clock_speed count_for_frequency divider
answer_34 = refl

answer_33 : set_tck {E = IoError} register 33 0 ≡ (ok 33, 0)
unfolding set_tck set_clock_speed count_for_frequency divider
answer_33 = refl

set_tck-ge_example :
    (actual : ℕ) × ((set_tck register 34 0).0 ≡ ok actual)
    × (34 ≤ actual)
    × (30_000_000 ≤ ((count_for_frequency (1_000_000_000 / 34)).0 + 1) * (1_000_000_000 / 34))
    × ((c : ℕ)
        → 0 < c
        → 30_000_000 ≤ (1_000_000_000 / 34) * c
        → (count_for_frequency (1_000_000_000 / 34)).0 + 1 ≤ c)
set_tck-ge_example = set_tck-ge register 34 0 (omega arith) (omega arith) refl

takes_three :
    (h : Bytes) (c : ℕ) (values : Bytes)
    → Writes adapter (λ s. s) h (c ∷ values) (adapter.write (c ∷ values) h)
takes_three h c [] = takes 1 (h ++ c ∷ []) (omega arith) (omega arith) refl
takes_three h c (d ∷ []) = takes 2 (h ++ c ∷ d ∷ []) (omega arith) (omega arith) refl
takes_three h c (d ∷ e ∷ values) = takes 3 (h ++ c ∷ d ∷ e ∷ []) (omega arith) (omega arith) refl

write-Written_example :
    (r : Outcome IoError (Unit {0}) × Bytes) × (write adapter 5 (1 ∷ 2 ∷ 3 ∷ 4 ∷ 5 ∷ []) []
      ≡ some r)
    × Written adapter (λ s. s) [] (1 ∷ 2 ∷ 3 ∷ 4 ∷ 5 ∷ []) r
write-Written_example =
    write-Written adapter (λ s. s) takes_three 5 (1 ∷ 2 ∷ 3 ∷ 4 ∷ 5 ∷ []) [] (omega arith)

read-ReadEnd_example :
    (r : Outcome IoError Bytes × Bytes) × (read adapter 512 3 4096 [] ≡ some r)
    × ReadEnd adapter 512 3 [] [] r
read-ReadEnd_example =
    read-ReadEnd adapter 512 3 (λ h. gives (1 ∷ 96 ∷ 111 ∷ 107 ∷ []) h (omega arith)) 4096 []
      (omega arith)
