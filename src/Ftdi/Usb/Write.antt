-- ===== src/Ftdi/Usb/Write.antt =====
-- `write` of xvc-server-usb/src/ftdi_device.rs, on a handle that takes a part of what it is given.
use xvc_rs.Prelude.{
  ℕ, zero, suc, ◌≡◌, refl, ◌≤◌, ◌<◌, sym, ◌∙◌, ap, Option, some, [], ◌∷◌, ◌++◌, Bytes, Outcome, ok,
  err, length, take, drop, append-nil, append_assoc, take-append-drop, le→ltb, length-drop, arith,
}
use xvc_rs.Ftdi.Usb.{Pipes, written, write}

module _ {H E : Type 0} (handle : Pipes H E) (sent : H → Bytes) where
  -- What a bulk write of bytes does: it takes at least one of them, in order, and says how many,
  -- or it fails and has taken none.
  pub data Writes (h : H) (values : Bytes) : Outcome E ℕ × H → Type 0 where
    takes :
        (n : ℕ) (h' : H)
        → 0 < n
        → n ≤ length values
        → sent h' ≡ sent h ++ take n values
        → Writes h values (ok n, h')
    fails : (e : E) (h' : H) → sent h' ≡ sent h → Writes h values (err e, h')

  -- All the bytes are sent in order, or the handle has failed behind a part of them.
  pub data Written (h : H) (values : Bytes) : Outcome E (Unit {0}) × H → Type 0 where
    whole : (h' : H) → sent h' ≡ sent h ++ values → Written h values (ok tt, h')
    part :
        (e : E) (h' : H) (some_of rest : Bytes)
        → values ≡ some_of ++ rest
        → sent h' ≡ sent h ++ some_of
        → Written h values (err e, h')

  Written-step :
      (h h' : H) (n : ℕ) (values : Bytes) (r : Outcome E (Unit {0}) × H)
      → sent h' ≡ sent h ++ take n values
      → Written h' (drop n values) r
      → Written h values r
  Written-step h h' n values r e (whole h'' e') = whole h'' (
      e'
      ∙ ap (λ x. x ++ drop n values) e
      ∙ append_assoc (sent h) (take n values) (drop n values)
      ∙ ap (λ x. sent h ++ x) (take-append-drop n values))
  Written-step h h' n values r e (part x h'' some_of rest e' e'') =
      part x h'' (take n values ++ some_of) rest
        (sym (take-append-drop n values)
          ∙ ap (λ x. take n values ++ x) e'
          ∙ sym (append_assoc (take n values) some_of rest))
        (e'' ∙ ap (λ x. x ++ some_of) e ∙ append_assoc (sent h) (take n values) some_of)

  written-Written :
      (next : Bytes → H → Option (Outcome E (Unit {0}) × H)) (h : H) (values : Bytes)
      (w : Outcome E ℕ × H)
      → Writes h values w
      → ((n : ℕ) (h' : H)
          → 0 < n
          → (r : Outcome E (Unit {0}) × H) × (next (drop n values) h' ≡ some r)
            × Written h' (drop n values) r)
      → (r : Outcome E (Unit {0}) × H) × (written handle w values next ≡ some r)
        × Written h values r
  unfolding written
  written-Written next h values _ (takes n h' pos fits e) later =
      let (r, runs, all) = later n h' pos in
      (r, rw (le→ltb (length (values)) n fits) runs, Written-step h h' n (values) r e all)
  written-Written next h values _ (fails e h' same) later =
      ((err e, h'), refl, part e h' [] (values) refl (same ∙ sym (append-nil (sent h))))

  -- Let every bulk write of a USB handle take at least one of the bytes it is given, in order, and
  -- no more than there are, or fail and take none. Then `write`, with as much fuel as there are
  -- bytes, ends without a panic; on success all the bytes have been sent in order, and on failure a
  -- part of them from their front.
  pub write-Written :
      ((h : H) (c : ℕ) (values : Bytes) → Writes h (c ∷ values) (handle.write (c ∷ values) h))
      → (fuel : ℕ) (values : Bytes) (h : H) → length values ≤ fuel
      → (r : Outcome E (Unit {0}) × H) × (write handle fuel values h ≡ some r) × Written h values r
  unfolding write written
  write-Written law fuel [] h le = ((ok tt, h), refl, whole h (sym (append-nil (sent h))))
  write-Written law zero (c ∷ values) h le = absurd (omega arith)
  write-Written law (suc fuel) (c ∷ values) h le =
      written-Written (write handle fuel) h (c ∷ values) (handle.write (c ∷ values) h)
        (law h c values)
        (λ n h' pos.
          write-Written law fuel (drop n (c ∷ values)) h'
            (omega (arith, length-drop n (c ∷ values))))
