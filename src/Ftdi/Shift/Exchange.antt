-- ===== src/Ftdi/Shift/Exchange.antt =====
-- A chunk of `shift_chunks` and its reply, and what a run of chunks comes to.
use xvc_rs.Prelude.{
  ℕ, zero, suc, ◌+◌, ◌-◌, ◌*◌, ◌≤◌, ◌<◌, ◌≡◌, Bool, some, List, [], ◌∷◌, ◌++◌, arith, Bytes, AllU8,
  All-append, All-drop, Outcome, ok, err, length, take,
}
use xvc_rs.Ftdi.Bits.Vector.{at}
use xvc_rs.Ftdi.Usb
use xvc_rs.Ftdi.Usb.{Pipes}
use xvc_rs.Ftdi.Usb.Write.{Writes, Written, write-Written}
use xvc_rs.Ftdi.Usb.Packet.{payload, payloads}
use xvc_rs.Ftdi.Usb.Read.{Reads, Delivered, ReadEnd, read-ReadEnd}
use xvc_rs.Ftdi.Shift.{Call, send_immediate, Mpsse}
use xvc_rs.Ftdi.Shift.Chunks.{Shifted, transferred, or_stop, receive, exchange}
use xvc_rs.Ftdi.Shift.Pins.{replies}
use xvc_rs.Ftdi.Shift.Tms.{chunk}
use xvc_rs.Ftdi.Shift.Tallied.{reply_bytes}
use xvc_rs.Ftdi.Shift.Clocks.{Clocks, total}
use xvc_rs.Ftdi.Shift.Got.{Got}
use xvc_rs.Ftdi.Shift.Receive.{receive-Got}

take-AllU8 : (n : ℕ) (v : Bytes) → AllU8 v → AllU8 (take n v)
take-AllU8 zero v u = tt
take-AllU8 (suc n) [] u = tt
take-AllU8 (suc n) (b ∷ v) (small, u) = (small, take-AllU8 n v u)

module _ {H E : Type 0} (handle : Pipes H E) (in_size : ℕ) where
  -- What a bulk read puts into its buffer are bytes.
  abbrev pub ReadsU8 : Type 0
  ReadsU8 = (h h' : H) (buf : Bytes) → handle.read in_size h ≡ (ok buf, h') → AllU8 buf

  payloads-AllU8 :
      ReadsU8
      → (wanted : ℕ) (h h' : H) (bufs : List Bytes) → Delivered handle in_size wanted h bufs h'
      → AllU8 (payloads bufs)
  payloads-AllU8 law wanted h h' [] d = tt
  payloads-AllU8 law wanted h h' (buf ∷ bufs) (Delivered.packets _ _ h₁ _ _ e d) =
      All-append (λ b. b < 256) (payload buf) (payloads bufs)
        (All-drop (λ b. b < 256) 2 buf (law h h₁ buf e)) (payloads-AllU8 law wanted h₁ h' bufs d)

module _ {H E : Type 0} (handle : Pipes H E) (mpsse : Mpsse) (out_size in_size : ℕ)
    (tms tdi : Bytes) (sent : H → Bytes) where
  open mpsse use {as_slice}

  -- The bytes of a chunk's calls, with `send_immediate` behind them.
  abbrev pub command : List Call → Bytes
  command new = as_slice (new ++ send_immediate ∷ [])

  -- A chunk for some of the `left` bits to go from the `p`th on: its calls clock them out on both pins,
  -- `sizes` stands for what the device replies to them, and `tdo` has the bits `got` so far.
  abbrev pub Attempt : ℕ → ℕ → ℕ → ℕ → List Call → List ℕ → List Bool → Bytes → Type 0
  Attempt size left p n new sizes got tdo =
      (0 < n)
      × (n ≤ left)
      × Clocks tms tdi new sizes p n
      × (length (as_slice new) ≤ out_size)
      × Got size p got tdo

  -- What a run of chunks from the `p`th bit on comes to, with `left` bits to go and the bits `got`
  -- in `tdo`: each chunk clocks some of the next bits out on both pins, with the bits of its reply put
  -- into `tdo`; an end by an error is one of its two transfers', with `tdo` as it was.
  pub data Shifts (size : ℕ) : ℕ → ℕ → List Bool → Bytes → H → Shifted H E → Type 0 where
    finished :
        (p : ℕ) (got : List Bool) (tdo : Bytes) (h : H)
        → Got size p got tdo
        → Shifts size 0 p got tdo h (ok tt, tdo, h)
    chunked :
        (left p n : ℕ) (new : List Call) (sizes : List ℕ) (got : List Bool) (tdo rx tdo' : Bytes)
        (h h₁ h₂ : H) (r : Shifted H E)
        → Attempt size left p n new sizes got tdo
        → sent h₁ ≡ sent h ++ command new
        → ReadEnd handle in_size (reply_bytes sizes) h₁ [] (ok rx, h₂)
        → Got size (p + n) (got ++ replies rx 0 sizes) tdo'
        → Shifts size (left - n) (p + n) (got ++ replies rx 0 sizes) tdo' h₂ r
        → Shifts size left p got tdo h r
    not_written :
        (left p n : ℕ) (new : List Call) (sizes : List ℕ) (got : List Bool) (tdo : Bytes) (h h₁ : H)
        (e : E)
        → Attempt size left p n new sizes got tdo
        → Written handle sent h (command new) (err e, h₁)
        → Shifts size left p got tdo h (err e, tdo, h₁)
    not_read :
        (left p n : ℕ) (new : List Call) (sizes : List ℕ) (got : List Bool) (tdo : Bytes)
        (h h₁ h₂ : H) (e : E)
        → Attempt size left p n new sizes got tdo
        → sent h₁ ≡ sent h ++ command new
        → ReadEnd handle in_size (reply_bytes sizes) h₁ [] (err e, h₂)
        → Shifts size left p got tdo h (err e, tdo, h₂)

  read_bytes :
      (wanted : ℕ) (h h' : H) (rx : Bytes)
      → ReadsU8 handle in_size
      → ReadEnd handle in_size wanted h [] (ok rx, h')
      → (length rx ≡ wanted) × AllU8 rx
  read_bytes wanted h h' _ law (ReadEnd.whole bufs h'' d e) =
      (e, take-AllU8 wanted (payloads bufs) (payloads-AllU8 handle in_size law wanted h h'' bufs d))

  after_write :
      (size left p n : ℕ) (new : List Call) (sizes : List ℕ) (got : List Bool) (tdo : Bytes) (h : H)
      (w : Outcome E (Unit {0}) × H) (next : Unit {0} → H → Shifted H E)
      → Attempt size left p n new sizes got tdo
      → Written handle sent h (command new) w
      → ((h₁ : H) → sent h₁ ≡ sent h ++ command new → Shifts size left p got tdo h (next tt h₁))
      → Shifts size left p got tdo h (transferred (some w) tdo h next)
  unfolding transferred
  after_write size left p n new sizes got tdo h _ next tries (Written.whole h₁ e) later = later h₁ e
  after_write size left p n new sizes got tdo h _ next tries (Written.part e h₁ some_of rest a b)
        later =
      not_written left p n new sizes got tdo h h₁ e tries (Written.part e h₁ some_of rest a b)

  after_read :
      (size left p n : ℕ) (new : List Call) (sizes : List ℕ) (got : List Bool) (tdo : Bytes)
      (h h₁ : H) (r : Outcome E Bytes × H) (next : Bytes → H → Shifted H E)
      → Attempt size left p n new sizes got tdo
      → sent h₁ ≡ sent h ++ command new
      → ReadEnd handle in_size (reply_bytes sizes) h₁ [] r
      → ((rx : Bytes) (h₂ : H)
          → ReadEnd handle in_size (reply_bytes sizes) h₁ [] (ok rx, h₂)
          → Shifts size left p got tdo h (next rx h₂))
      → Shifts size left p got tdo h (transferred (some r) tdo h₁ next)
  unfolding transferred
  after_read size left p n new sizes got tdo h h₁ _ next tries s (ReadEnd.whole bufs h₂ d e) later =
      later _ h₂ (ReadEnd.whole bufs h₂ d e)
  after_read size left p n new sizes got tdo h h₁ _ next tries s (ReadEnd.part bufs e h₂ d short)
        later =
      not_read left p n new sizes got tdo h h₁ h₂ e tries s (ReadEnd.part bufs e h₂ d short)

  pub exchange-Shifts :
      (size n left p : ℕ) (new : List Call) (sizes : List ℕ) (got : List Bool) (tdo : Bytes) (h : H)
      (next : Bytes → _ → H → Shifted H E)
      → ((h : H) (c : ℕ) (values : Bytes)
          → Writes handle sent h (c ∷ values) (handle.write (c ∷ values) h))
      → ((h : H) → Reads handle in_size (reply_bytes sizes) (handle.read in_size h))
      → ReadsU8 handle in_size
      → Attempt size left p n new sizes got tdo
      → p + left ≤ size * 8
      → ((tdo' : Bytes) (got' : List Bool) (h' : H)
          → Got size (p + n) got' tdo'
          → Shifts size (left - n) (p + n) got' tdo' h' (next tdo' (at (p + n)) h'))
      → Shifts size left p got tdo h (
          exchange handle mpsse out_size in_size tms tdi
            (chunk new sizes (reply_bytes sizes) (left - n) (p + n))
            tdo
            (at p)
            h
            next)
  unfolding exchange
  exchange-Shifts size n left p new sizes got tdo h next writes reads bytes
        (pos, le, clocks, tight, all) range later =
      let tries : Attempt size left p n new sizes got tdo = (pos, le, clocks, tight, all) in
      let on_reply : Bytes → H → Shifted H E = (λ rx h₂.
        or_stop (receive rx sizes (record { tdo = tdo; place = at p; rx_index = 0; rx_bit = 1 }))
          tdo h₂ (λ r. next r.tdo r.place h₂)) in
      let on_sent : Unit {0} → H → Shifted H E = (λ _ h₁.
        transferred
          (Usb.read handle in_size (reply_bytes sizes) ((reply_bytes sizes + 1) * 1024) h₁) tdo h₁
          on_reply) in
      let (w, runs, written) =
        write-Written handle sent writes (length (command new)) (command new) h (omega arith) in
      rw runs (
        after_write size left p n new sizes got tdo h w on_sent tries written (λ h₁ s.
          let (r, runs', ended) =
            read-ReadEnd handle in_size (reply_bytes sizes) reads ((reply_bytes sizes + 1) * 1024)
              h₁ (omega arith) in
          rw runs' (
            after_read size left p n new sizes got tdo h h₁ r on_reply tries s ended (λ rx h₂ whole.
              let (full, u) = read_bytes (reply_bytes sizes) h₁ h₂ rx bytes whole in
              let (tdo', mask, e, all') =
                receive-Got {E = E} rx size sizes 0 p 1 got tdo u clocks.3 (omega arith)
                  (omega (arith, clocks.2)) all in
              let e' : p + total sizes ≡ p + n = omega (arith, clocks.2) in
              rw e (
                rw e' (
                  chunked left p n new sizes got tdo rx tdo' h h₁ h₂ _ tries s whole (rw e' at all')
                    (later tdo' _ h₂ (rw e' at all'))))))))
