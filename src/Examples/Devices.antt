-- ===== src/Examples/Devices.antt =====
-- Concrete devices: a debug bridge that answers each word with its TDI word, a connection's
-- `read_exact`, and a USB handle that takes at most 3 bytes at a time.
use xvc_rs.Prelude.{
  ℕ, ◌-◌, ◌≡◌, refl, sym, inl, inr, some, none, List, [], ◌∷◌, ◌++◌, map, arith, Bytes, AreChunks,
  joined, append-cases, eq-nil_left, Outcome, ok, err, ◌>>=◌, length, take, drop, set, get_elem?,
  ltb, ◌==◌, if◌then◌else◌, take_left, drop_left, length-append, length_pos, le→ltb, lt→ltb,
  append-eq-nil,
}
use xvc_rs.Errors.{IoError}
use xvc_rs.Client.{Incoming, received, failed, ExactReader, closed}
use xvc_rs.DebugBridge.MemoryMapped.{Registers}
use xvc_rs.Ftdi.Usb.{Pipes}

abbrev pub word : List ℕ → ℕ → ℕ
word h offset = elim (get_elem? h offset) [ none ↦ 0 | some v ↦ v ]

abbrev pub loopback : Registers (List ℕ)
loopback = record {
  write_volatile = λ offset v h. set h offset v;
  read_volatile =
      λ offset h. (if offset == 3 then word h 2 else if offset == 4 then 0 else word h offset, h);
  patience = λ h. 1;
}

unfoldable pub read_exact : ℕ → List Incoming → Outcome IoError Bytes × List Incoming
read_exact n [] = (if n == 0 then ok [] else err closed, [])
read_exact n (received s ∷ incoming) =
    let (read, later) = read_exact (n - length s) incoming in
    if ltb (length s) n
    then (read >>= λ t. ok (s ++ t), later)
    else (ok (take n s), received (drop n s) ∷ incoming)
read_exact n (failed e ∷ incoming) = (err e, incoming)

pub read_exact_lem :
    (p rest : Bytes) (chunks : List Bytes)
    → AreChunks chunks
    → joined chunks ≡ p ++ rest
    → (chunks' : List Bytes) × (read_exact (length p) (map received chunks)
        ≡ (ok p, map received chunks'))
      × (joined chunks' ≡ rest)
unfolding read_exact
read_exact_lem p rest [] are e =
    let nothing : p ≡ [] = eq-nil_left p rest (sym e) in
    ([], rw nothing refl, sym (append-eq-nil p rest (sym e)))
read_exact_lem p rest (s ∷ chunks) (ne, are) e = elim (append-cases s (joined chunks) p rest e) [
  | inl (r, whole, joins) ↦ (
    r ∷ chunks,
    rw
        (
          whole,
          le→ltb (length (p ++ r)) (length p) (omega (arith, length-append p r)),
          take_left p r,
          drop_left p r,
        )
        refl,
    joins,
  )
  | inr (q, some_left, cut, joins) ↦
      let (chunks', read, rest_joins) = read_exact_lem q rest chunks are joins in
      let left : length (s ++ q) - length s ≡ length q = omega (arith, length-append s q) in
      (
        chunks',
        rw
            (
              cut,
              left,
              read,
              lt→ltb (length s) (length (s ++ q))
                  (omega (arith, length-append s q, length_pos q some_left)),
            )
            refl,
        rest_joins,
      )
]

abbrev pub exact_reader : ExactReader
exact_reader = record { read_exact = read_exact; read_exact-joined = read_exact_lem }

-- Its state is what it has been sent; its packets have a status byte 1, a status byte 96 and "ok".
abbrev pub adapter : Pipes Bytes IoError
adapter = record {
  write = λ values h. (ok (length (take 3 values)), h ++ take 3 values);
  read = λ n h. (ok (1 ∷ 96 ∷ 111 ∷ 107 ∷ []), h);
  timed_out = closed;
}
