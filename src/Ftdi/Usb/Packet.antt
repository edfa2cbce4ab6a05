-- ===== src/Ftdi/Usb/Packet.antt =====
-- The inner loop of `read` of xvc-server-usb/src/ftdi_device.rs on one packet.
use Prim.Native.Nat.{min}
use xvc_rs.Prelude.{
  ℕ, zero, suc, ◌+◌, ◌-◌, ◌≡◌, refl, ◌≤◌, ◌<◌, sym, ◌∙◌, ap, some, List, [], ◌∷◌, ◌++◌, Bytes,
  length, take, drop, append-nil, le→ltb, lt→ltb, arith, ltb, if◌then◌else◌,
}
use xvc_rs.Ftdi.Usb.{strip}

pub take_all : (n : ℕ) (xs : Bytes) → length xs ≤ n → take n xs ≡ xs
take_all zero [] h = refl
take_all (suc n) [] h = refl
take_all zero (c ∷ xs) h = absurd (omega arith)
take_all (suc n) (c ∷ xs) h = ap (λ ys. c ∷ ys) (take_all n xs (omega arith))

take-min : (n : ℕ) (xs : Bytes) → take (min (length xs) n) xs ≡ take n xs
take-min zero [] = refl
take-min zero (c ∷ xs) = let e : min (length (c ∷ xs)) 0 ≡ 0 = omega arith in rw e refl
take-min (suc n) [] = let e : min 0 (suc n) ≡ 0 = omega arith in rw e refl
take-min (suc n) (c ∷ xs) =
    let e : min (length (c ∷ xs)) (suc n) ≡ suc (min (length xs) n) = omega arith in
    rw e (ap (λ ys. c ∷ ys) (take-min n xs))

pub length-take-min : (n : ℕ) (xs : Bytes) → length (take n xs) ≡ min n (length xs)
length-take-min zero xs = omega arith
length-take-min (suc n) [] = omega arith
length-take-min (suc n) (c ∷ xs) = omega (arith, length-take-min n xs)

-- What a packet adds behind what is filled.
take-append_fit :
    (n : ℕ) (xs ys : Bytes) → length xs ≤ n → take n (xs ++ ys) ≡ xs ++ take (n - length xs) ys
take-append_fit n [] ys h = ap (λ k. take k ys) (omega arith)
take-append_fit zero (c ∷ xs) ys h = absurd (omega arith)
take-append_fit (suc n) (c ∷ xs) ys h =
    let e : suc n - suc (length xs) ≡ n - length xs = omega arith in
    rw e (ap (λ zs. c ∷ zs) (take-append_fit n xs ys (omega arith)))

pub take-take-append : (n : ℕ) (xs ys : Bytes) → take n (take n xs ++ ys) ≡ take n (xs ++ ys)
take-take-append zero xs ys = refl
take-take-append (suc n) [] ys = refl
take-take-append (suc n) (c ∷ xs) ys = ap (λ zs. c ∷ zs) (take-take-append n xs ys)

-- A packet without its status bytes.
abbrev pub payload : Bytes → Bytes
payload buf = drop 2 buf

abbrev pub payloads : List Bytes → Bytes
payloads [] = []
payloads (buf ∷ bufs) = payload buf ++ payloads bufs

payload_guard : (buf : Bytes) → (if ltb 2 (length buf) then drop 2 buf else []) ≡ payload buf
payload_guard [] = refl
payload_guard (a ∷ []) = refl
payload_guard (a ∷ b ∷ []) = refl
payload_guard (a ∷ b ∷ c ∷ buf) = rw (lt→ltb 2 (length (a ∷ b ∷ c ∷ buf)) (omega arith)) refl

strip_done :
    (fuel packet wanted : ℕ) (buf : Bytes) (off : ℕ) (filled : Bytes)
    → length buf ≤ off
    → strip fuel packet wanted buf off filled ≡ some filled
unfolding strip
strip_done zero packet wanted buf off filled h = rw (le→ltb off (length buf) h) refl
strip_done (suc fuel) packet wanted buf off filled h = rw (le→ltb off (length buf) h) refl

packet_payload :
    (packet : ℕ) (buf : Bytes)
    → length buf ≤ packet
    → (if ltb (0 + 2) (min (0 + packet) (length buf))
        then drop (0 + 2) (take (min (0 + packet) (length buf)) buf)
        else [])
      ≡ payload buf
packet_payload packet buf fits =
    let whole : min (0 + packet) (length buf) ≡ length buf = omega arith in
    rw (whole, take_all (length buf) buf (omega arith)) (payload_guard buf)

strip_round :
    (fuel packet wanted : ℕ) (buf filled : Bytes)
    → length buf ≤ packet
    → 0 < length buf
    → length filled ≤ wanted
    → strip (suc fuel) packet wanted buf 0 filled ≡ some (take wanted (filled ++ payload buf))
unfolding strip
strip_round fuel packet wanted buf filled fits some_byte room =
    rw (lt→ltb 0 (length buf) some_byte, packet_payload packet buf fits)
      (strip_done fuel packet wanted buf (min (0 + packet) (length buf)) _ (omega arith)
        ∙ ap some (
            ap (λ xs. filled ++ xs) (take-min (wanted - length filled) (payload buf))
            ∙ sym (take-append_fit wanted filled (payload buf) room)))

-- The inner loop on one packet.
pub strip_packet :
    (packet wanted : ℕ) (buf filled : Bytes)
    → length buf ≤ packet
    → length filled ≤ wanted
    → strip (length buf) packet wanted buf 0 filled ≡ some (take wanted (filled ++ payload buf))
strip_packet packet wanted [] filled fits room =
    strip_done 0 packet wanted [] 0 filled (omega arith)
    ∙ ap some
        (sym (take_all wanted filled room) ∙ ap (λ xs. take wanted xs) (sym (append-nil filled)))
strip_packet packet wanted (c ∷ buf) filled fits room =
    strip_round (length buf) packet wanted (c ∷ buf) filled fits (omega arith) room
