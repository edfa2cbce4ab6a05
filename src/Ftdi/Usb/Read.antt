-- ===== src/Ftdi/Usb/Read.antt =====
-- `read` of xvc-server-usb/src/ftdi_device.rs: the packets' payload, and the end of a silent device.
use mathlib.Core.Path.{subst}
use xvc_rs.Prelude.{
  ℕ, zero, suc, ◌+◌, ◌-◌, ◌*◌, ◌≡◌, refl, ◌≤◌, ◌<◌, sym, ◌∙◌, ap, Option, some, List, [], ◌∷◌, ◌++◌,
  Bytes, Outcome, ok, err, length, take, append-nil, append_assoc, le→ltb, length-append, arith,
  ltb, leb, Bool-cases, inl, inr, ◌⊎◌, ltb→lt, ltb→le,
}
use xvc_rs.Ftdi.Usb.{Pipes, counted, stripped, read_loop, read, max_empty_reads}
use xvc_rs.Ftdi.Usb.Packet.{
  take_all, length-take-min, take-take-append, payload, payloads, strip_packet,
}

module _ {H E : Type 0} (handle : Pipes H E) (packet wanted : ℕ) where
  -- A bulk read gives at most as many bytes as its buffer has, or it fails.
  pub data Reads : Outcome E Bytes × H → Type 0 where
    gives : (buf : Bytes) (h' : H) → length buf ≤ packet → Reads (ok buf, h')
    fails : (e : E) (h' : H) → Reads (err e, h')

  -- The packets that the bulk reads give, one behind the other, and perhaps a read that fails.
  pub data Delivered : H → List Bytes → H → Type 0 where
    silent : (h : H) → Delivered h [] h
    broken : (h : H) (e : E) (h' : H) → handle.read packet h ≡ (err e, h') → Delivered h [] h'
    packets :
        (h : H) (buf : Bytes) (h' : H) (bufs : List Bytes) (h'' : H)
        → handle.read packet h ≡ (ok buf, h')
        → Delivered h' bufs h''
        → Delivered h (buf ∷ bufs) h''

  -- `out` is the payload behind what is filled, as far as it is wanted; an error comes only when
  -- the packets' payload was not enough.
  pub data ReadEnd (h : H) (filled : Bytes) : Outcome E Bytes × H → Type 0 where
    whole :
        (bufs : List Bytes) (h' : H)
        → Delivered h bufs h'
        → length (take wanted (filled ++ payloads bufs)) ≡ wanted
        → ReadEnd h filled (ok (take wanted (filled ++ payloads bufs)), h')
    part :
        (bufs : List Bytes) (e : E) (h' : H)
        → Delivered h bufs h'
        → length (filled ++ payloads bufs) < wanted
        → ReadEnd h filled (err e, h')

  ReadEnd-step :
      (h h' : H) (buf filled : Bytes) (r : Outcome E Bytes × H)
      → handle.read packet h ≡ (ok buf, h')
      → ReadEnd h' (take wanted (filled ++ payload buf)) r
      → ReadEnd h filled r
  ReadEnd-step h h' buf filled r e (whole bufs h'' d l) =
      let same =
        take-take-append wanted (filled ++ payload buf) (payloads bufs)
        ∙ ap (λ xs. take wanted xs) (append_assoc filled (payload buf) (payloads bufs)) in
      rw same (whole (buf ∷ bufs) h'' (packets h buf h' bufs h'' e d) (ap length (sym same) ∙ l))
  ReadEnd-step h h' buf filled r e (part bufs x h'' d l) =
      part (buf ∷ bufs) x h'' (packets h buf h' bufs h'' e d) (
        omega (
          arith,
          l,
          length-take-min wanted (filled ++ payload buf),
          length-append filled (payload buf),
          length-append (take wanted (filled ++ payload buf)) (payloads bufs),
          length-append filled (payload buf ++ payloads bufs),
          length-append (payload buf) (payloads bufs),
        ))

  ReadEnd-full : (h : H) (filled : Bytes) → length filled ≡ wanted → ReadEnd h filled (ok filled, h)
  ReadEnd-full h filled full =
      let all : take wanted (filled ++ []) ≡ filled =
        ap (λ xs. take wanted xs) (append-nil filled)
        ∙ take_all wanted filled (omega (arith, full)) in
      subst (λ out. ReadEnd h filled (ok out, h)) all (whole [] h (silent h) (ap length all ∙ full))

  -- What follows one packet.
  counted-ReadEnd :
      (empty_reads : ℕ) (buf filled : Bytes) (h h' : H) (next : ℕ → Option (Outcome E Bytes × H))
      → handle.read packet h ≡ (ok buf, h')
      → length filled < wanted
      → ((n : ℕ)
          → (length filled < length (take wanted (filled ++ payload buf))) ⊎ (n ≡ empty_reads + 1)
          → n < max_empty_reads
          → (r : Outcome E Bytes × H) × (next n ≡ some r)
            × ReadEnd h' (take wanted (filled ++ payload buf)) r)
      → (r : Outcome E Bytes × H) × (counted handle packet wanted
            (length filled)
            empty_reads
            (take wanted (filled ++ payload buf))
            h'
            next
          ≡ some r)
        × ReadEnd h filled r
  unfolding counted
  counted-ReadEnd empty_reads buf filled h h' next e short later =
      elim (Bool-cases (ltb (length filled) (length (take wanted (filled ++ payload buf))))) [
        | inl grown ↦
            let (r, runs, ends) = later 0 (inl (ltb→lt _ _ grown)) (omega arith) in
            (r, rw grown runs, ReadEnd-step h h' buf filled r e ends)
        | inr none_new ↦ elim (Bool-cases (leb max_empty_reads (empty_reads + 1))) [
          | inl silent_for_long ↦ (
            (err handle.timed_out, h'),
            rw (none_new, silent_for_long) refl,
            part (buf ∷ []) handle.timed_out h' (packets h buf h' [] h' e (silent h')) (
                omega (
                  arith,
                  ltb→le _ _ none_new,
                  length-take-min wanted (filled ++ payload buf),
                  length-append filled (payload buf),
                  length-append filled (payload buf ++ []),
                  length-append (payload buf) [],
                )),
          )
          | inr go_on ↦
              let (r, runs, ends) = later (empty_reads + 1) (inr refl) (ground arith) in
              (r, rw (none_new, go_on) runs, ReadEnd-step h h' buf filled r e ends)
        ]
      ]

  grows :
      (buf filled : Bytes) (n empty_reads : ℕ)
      → length filled ≤ wanted
      → (length filled < length (take wanted (filled ++ payload buf))) ⊎ (n ≡ empty_reads + 1)
      → (length filled < length (take wanted (filled ++ payload buf)))
        ⊎ ((length filled ≤ length (take wanted (filled ++ payload buf))) × (n ≡ empty_reads + 1))
  grows buf filled n empty_reads room (inl grown) = inl grown
  grows buf filled n empty_reads room (inr one_more) = inr (
    omega
        (arith, length-take-min wanted (filled ++ payload buf), length-append filled (payload buf)),
    one_more,
  )

  stripped-ReadEnd :
      (empty_reads : ℕ) (filled : Bytes) (h : H) (read : Outcome E Bytes × H)
      (next : ℕ → Bytes → H → Option (Outcome E Bytes × H))
      → handle.read packet h ≡ read
      → Reads read
      → length filled < wanted
      → ((n : ℕ) (filled' : Bytes) (h' : H)
          → length filled' ≤ wanted
          → n < max_empty_reads
          → (length filled < length filled')
            ⊎ ((length filled ≤ length filled') × (n ≡ empty_reads + 1))
          → (r : Outcome E Bytes × H) × (next n filled' h' ≡ some r) × ReadEnd h' filled' r)
      → (r : Outcome E Bytes × H) × (stripped handle packet wanted read empty_reads filled next
          ≡ some r)
        × ReadEnd h filled r
  unfolding stripped
  stripped-ReadEnd empty_reads filled h _ next e (gives buf h' fits) short later =
      let (r, runs, ends) =
        counted-ReadEnd empty_reads buf filled h h'
          (λ n. next n (take wanted (filled ++ payload buf)) h') e short
          (λ n grown few.
            later n (take wanted (filled ++ payload buf)) h'
              (omega (arith, length-take-min wanted (filled ++ payload buf))) few
              (grows buf filled n empty_reads (omega arith) grown)) in
      (r, rw (strip_packet packet wanted buf filled fits (omega arith)) runs, ends)
  stripped-ReadEnd empty_reads filled h _ next e (fails x h') short later =
      ((err x, h'), refl, part [] x h' (broken h x h' e) (omega (arith, length-append filled [])))

  -- Each bulk read uses up a part of what the fuel is measured by.
  less :
      (before after empty_reads n fuel : ℕ)
      → after ≤ wanted
      → before < wanted
      → empty_reads < max_empty_reads
      → (wanted - before) * max_empty_reads + (max_empty_reads - empty_reads) ≤ suc fuel
      → (before < after) ⊎ ((before ≤ after) × (n ≡ empty_reads + 1))
      → (wanted - after) * max_empty_reads + (max_empty_reads - n) ≤ fuel
  less before after empty_reads n fuel room short few enough (inl grown) = omega arith
  less before after empty_reads n fuel room short few enough (inr (no_less, one_more)) =
      omega (arith, one_more)

  read_loop-ReadEnd :
      ((h : H) → Reads (handle.read packet h))
      → (fuel empty_reads : ℕ) (filled : Bytes) (h : H) → length filled ≤ wanted
      → empty_reads < max_empty_reads
      → (wanted - length filled) * max_empty_reads + (max_empty_reads - empty_reads) ≤ fuel
      → (r : Outcome E Bytes × H) × (read_loop handle packet wanted fuel empty_reads filled h
          ≡ some r)
        × ReadEnd h filled r
  unfolding read_loop
  read_loop-ReadEnd law zero empty_reads filled h room few enough = (
    (ok filled, h),
    rw (le→ltb (length filled) wanted (omega arith)) refl,
    ReadEnd-full h filled (omega arith),
  )
  read_loop-ReadEnd law (suc fuel) empty_reads filled h room few enough =
      elim (Bool-cases (ltb (length filled) wanted)) [
        | inl short ↦
            let (r, runs, ends) =
              stripped-ReadEnd empty_reads filled h (handle.read packet h)
                (read_loop handle packet wanted fuel) refl (law h) (ltb→lt _ _ short)
                (λ n filled' h' room' few' grown.
                  read_loop-ReadEnd law fuel n filled' h' room' few' (
                    less (length filled) (length filled') empty_reads n fuel room'
                      (ltb→lt _ _ short) few enough grown)) in
            (r, rw short runs, ends)
        | inr full ↦
            ((ok filled, h), rw full refl, ReadEnd-full h filled (omega (arith, ltb→le _ _ full)))
      ]

  -- Let every bulk read of a USB handle bring at most one packet or fail. Then `read` ends, with
  -- 1024 units of fuel for each byte wanted and 1024 more. On success it has the wanted number of
  -- bytes, the first ones of the packets' payload in order and without the status bytes; it fails
  -- only if the payload of the packets that were read is shorter than what is wanted.
  pub read-ReadEnd :
      ((h : H) → Reads (handle.read packet h))
      → (fuel : ℕ) (h : H) → (wanted + 1) * 1024 ≤ fuel
      → (r : Outcome E Bytes × H) × (read handle packet wanted fuel h ≡ some r) × ReadEnd h [] r
  unfolding read
  read-ReadEnd law fuel h enough =
      read_loop-ReadEnd law fuel 0 [] h (omega arith) (omega arith) (omega arith)
