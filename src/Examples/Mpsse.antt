-- ===== src/Examples/Mpsse.antt =====
-- The MPSSE commands of FTDI's application note AN 108.
use xvc_rs.Prelude.{
  ◌+◌, ◌-◌, ◌/◌, ◌%◌, ◌≡◌, refl, List, [], ◌∷◌, ◌++◌, if◌then◌else◌, arith, Bytes, length,
  length-append,
}
use xvc_rs.Ftdi.Shift.{Call, clock_tms, clock_data, clock_bits, send_immediate, Mpsse}

unfoldable pub command : Call → Bytes
command (clock_tms bits tdi n) = 0x6B ∷ (n - 1) ∷ (bits + (if tdi then 128 else 0)) ∷ []
command (clock_data values) =
    0x39 ∷ ((length values - 1) % 256) ∷ ((length values - 1) / 256) ∷ values
command (clock_bits bits n) = 0x3B ∷ (n - 1) ∷ bits ∷ []
command send_immediate = 0x87 ∷ []

unfoldable pub as_slice : List Call → Bytes
as_slice [] = []
as_slice (c ∷ calls) = command c ++ as_slice calls

pub as_slice-append :
    (calls : List Call) (c : Call)
    → length (as_slice (calls ++ c ∷ [])) ≡ length (as_slice calls) + length (command c)
unfolding as_slice
as_slice-append [] c = omega (arith, length-append {0} (command c) [])
as_slice-append (d ∷ calls) c = omega (
  arith,
  as_slice-append calls c,
  length-append {0} (command d) (as_slice calls),
  length-append {0} (command d) (as_slice (calls ++ c ∷ [])),
)

pub length-clock_data_lem :
    (calls : List Call) (values : Bytes)
    → length (as_slice (calls ++ clock_data values ∷ []))
      ≡ length (as_slice calls) + 3 + length values
unfolding command
length-clock_data_lem calls values = omega (arith, as_slice-append calls (clock_data values))

abbrev pub mpsse : Mpsse
unfolding as_slice command
mpsse = record {
  as_slice = as_slice;
  length-as_slice-nil = refl;
  length-clock_tms = λ calls bits tdi n. as_slice-append calls (clock_tms bits tdi n);
  length-clock_data = length-clock_data_lem;
  length-clock_bits = λ calls bits n. as_slice-append calls (clock_bits bits n);
}
