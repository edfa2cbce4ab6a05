-- ===== src/Ftdi/Setup/Order.antt =====
-- The order of the control transfers of `ftdi_init`.
use xvc_rs.Prelude.{
  ℕ, ◌+◌, ◌≡◌, refl, sym, ap, ◌∙◌, Bool, Bool-cases, inl, inr, List, [], ◌∷◌, ◌++◌, append-nil,
  append_assoc, arith, Option, some, none, zero, suc, ltb, drop, Bytes, Outcome, ok, err, panic,
  then_do, length,
}
use xvc_rs.Ftdi.Usb.{Pipes, write, written}
use xvc_rs.Ftdi.Usb.Write.{Writes, Written, write-Written}
use xvc_rs.Ftdi.Setup.{
  Control, breq_reset, breq_set_latency, breq_set_bitmode, wval_reset_reset, wval_set_bitmode_mpsse,
  wval_reset_purge_tx, wval_reset_purge_rx, detached, claim_interface, send_init, ftdi_init,
}

-- A control transfer that a device has taken: the request's type, the request, its value and its index.
pub record Transfer : Type 0 where
  pub request_type : ℕ
  pub request : ℕ
  pub value : ℕ
  pub index : ℕ

module _ {H E : Type 0} (control : Control H E) (iface bmreqtype_out : ℕ) (handle : Pipes H E)
    (init_cmd : Bool → Bytes) (log : H → List Transfer) (sent : H → Bytes) where
  abbrev pub request_of : ℕ → ℕ → Transfer
  request_of request value = record {
    request_type = bmreqtype_out;
    request = request;
    value = value;
    index = iface + 1;
  }

  abbrev pub setup : List Transfer
  setup =
      request_of breq_reset wval_reset_reset
      ∷ request_of breq_set_bitmode wval_set_bitmode_mpsse
      ∷ request_of breq_set_latency 2
      ∷ request_of breq_reset wval_reset_purge_tx
      ∷ request_of breq_reset wval_reset_purge_rx
      ∷ []

  -- A call adds transfers to those that the device has taken, or it fails and adds none. It sends no
  -- bytes on the endpoints.
  pub data Adds {A : Type 0} (h : H) (transfers : List Transfer) : Outcome E A × H → Type 0 where
    adds :
        (a : A) (h' : H)
        → log h' ≡ log h ++ transfers
        → sent h' ≡ sent h
        → Adds h transfers (ok a, h')
    refuses : (e : E) (h' : H) → log h' ≡ log h → sent h' ≡ sent h → Adds h transfers (err e, h')

  -- The device has taken all the transfers and the bytes behind them; or, at an error, the transfers up
  -- to one, or all of them and a part of the bytes.
  pub data Prepared (h : H) (transfers : List Transfer) (values : Bytes)
      : Outcome E (Unit {0}) × H → Type 0 where
    ready :
        (h' : H)
        → log h' ≡ log h ++ transfers
        → sent h' ≡ sent h ++ values
        → Prepared h transfers values (ok tt, h')
    stopped :
        (e : E) (h' : H) (done rest : List Transfer)
        → transfers ≡ done ++ rest
        → log h' ≡ log h ++ done
        → sent h' ≡ sent h
        → Prepared h transfers values (err e, h')
    cut_off :
        (e : E) (h' : H) (some_of rest : Bytes)
        → log h' ≡ log h ++ transfers
        → values ≡ some_of ++ rest
        → sent h' ≡ sent h ++ some_of
        → Prepared h transfers values (err e, h')

  Prepared-behind :
      (h h₁ : H) (transfers later : List Transfer) (values : Bytes) (r : Outcome E (Unit {0}) × H)
      → log h₁ ≡ log h ++ transfers
      → sent h₁ ≡ sent h
      → Prepared h₁ later values r
      → Prepared h (transfers ++ later) values r
  Prepared-behind h h₁ transfers later values _ l s (ready h' l' s') =
      ready h' (l' ∙ (ap (λ x. x ++ later) l ∙ append_assoc (log h) transfers later))
        (s' ∙ ap (λ x. x ++ values) s)
  Prepared-behind h h₁ transfers later values _ l s (stopped e h' done rest c l' s') =
      stopped e h' (transfers ++ done) rest
        (ap (λ x. transfers ++ x) c ∙ sym (append_assoc transfers done rest))
        (l' ∙ (ap (λ x. x ++ done) l ∙ append_assoc (log h) transfers done)) (s' ∙ s)
  Prepared-behind h h₁ transfers later values _ l s (cut_off e h' some_of rest l' c s') =
      cut_off e h' some_of rest
        (l' ∙ (ap (λ x. x ++ later) l ∙ append_assoc (log h) transfers later)) c
        (s' ∙ ap (λ x. x ++ some_of) s)

  then_do-Prepared :
      {A : Type 0} (h : H) (transfers later : List Transfer) (values : Bytes) (r : Outcome E A × H)
      (next : A → H → Outcome E (Unit {0}) × H)
      → Adds h transfers r
      → ((a : A) (h₁ : H) → Prepared h₁ later values (next a h₁))
      → Prepared h (transfers ++ later) values (then_do r next)
  then_do-Prepared h transfers later values _ next (adds a h₁ l s) k =
      Prepared-behind h h₁ transfers later values _ l s (k a h₁)
  then_do-Prepared h transfers later values _ next (refuses e h' l s) k =
      stopped e h' [] (transfers ++ later) refl (l ∙ sym (append-nil (log h))) s

  Adds-behind :
      {A : Type 0} (h h₁ : H) (r : Outcome E A × H)
      → log h₁ ≡ log h
      → sent h₁ ≡ sent h
      → Adds h₁ [] r
      → Adds h [] r
  Adds-behind h h₁ _ l s (adds a h' l' s') = adds a h' (l' ∙ ap (λ x. x ++ []) l) (s' ∙ s)
  Adds-behind h h₁ _ l s (refuses e h' l' s') = refuses e h' (l' ∙ l) (s' ∙ s)

  then_do-Adds :
      {A B : Type 0} (h : H) (r : Outcome E A × H) (next : A → H → Outcome E B × H)
      → Adds h [] r
      → ((a : A) (h₁ : H) → Adds h₁ [] (next a h₁))
      → Adds h [] (then_do r next)
  then_do-Adds h _ next (adds a h₁ l s) k =
      Adds-behind h h₁ (next a h₁) (l ∙ append-nil (log h)) s (k a h₁)
  then_do-Adds h _ next (refuses e h' l s) k = refuses e h' l s

  -- Bulk writes are no control transfers.
  abbrev pub Apart : Type 0
  Apart = (values : Bytes) (h : H) → log (handle.write values h).1 ≡ log h

  abbrev Logged : List Transfer → Option (Outcome E (Unit {0}) × H) → Type 0
  Logged l none = Unit
  Logged l (some (r, h)) = log h ≡ l

  written-Logged :
      (l : List Transfer) (values : Bytes) (w : Outcome E ℕ × H)
      (next : Bytes → H → Option (Outcome E (Unit {0}) × H))
      → log w.1 ≡ l
      → ((n : ℕ) (h : H) → log h ≡ l → Logged l (next (drop n values) h))
      → Logged l (written handle w values next)
  unfolding written
  written-Logged l values (ok n, h) next e k = elim (Bool-cases (ltb (length values) n)) [
    | inl over ↦ rw over e
    | inr fits ↦ rw fits (k n h e)
  ]
  written-Logged l values (err x, h) next e k = e
  written-Logged l values (panic, h) next e k = e

  write-Logged :
      Apart
      → (l : List Transfer) (fuel : ℕ) (values : Bytes) (h : H) → log h ≡ l
      → Logged l (write handle fuel values h)
  unfolding write
  write-Logged apart l zero [] h e = e
  write-Logged apart l (suc fuel) [] h e = e
  write-Logged apart l zero (c ∷ values) h e = tt
  write-Logged apart l (suc fuel) (c ∷ values) h e =
      written-Logged l (c ∷ values) (handle.write (c ∷ values) h) (write handle fuel)
        (apart (c ∷ values) h ∙ e)
        (λ n h' e'. write-Logged apart l fuel (drop n (c ∷ values)) h' e')

  Written-Prepared :
      (h : H) (values : Bytes) (r : Outcome E (Unit {0}) × H)
      → Written handle sent h values r
      → log r.1 ≡ log h
      → Prepared h [] values r
  Written-Prepared h values _ (Written.whole h' s) l = ready h' (l ∙ sym (append-nil (log h))) s
  Written-Prepared h values _ (Written.part e h' some_of rest c s) l =
      cut_off e h' some_of rest (l ∙ sym (append-nil (log h))) c s

  send_init-Prepared :
      Apart
      → ((h : H) (c : ℕ) (values : Bytes)
          → Writes handle sent h (c ∷ values) (handle.write (c ∷ values) h))
      → (loopback : Bool) (h : H)
      → Prepared h []
          (init_cmd loopback)
          (send_init control iface bmreqtype_out handle init_cmd loopback h)
  unfolding send_init
  send_init-Prepared apart writes loopback h =
      let (r, e, w) =
        write-Written handle sent writes (length (init_cmd loopback)) (init_cmd loopback) h
          (omega arith) in
      let logged =
        write-Logged apart (log h) (length (init_cmd loopback)) (init_cmd loopback) h refl in
      rw e (Written-Prepared h (init_cmd loopback) r w (rw e at logged))

  detached-Adds :
      (h : H) (r : Outcome E (Unit {0}) × H) → Adds h [] r → Adds h [] (detached control iface r)
  unfolding detached
  detached-Adds h _ (adds u h' l s) = adds u h' l s
  detached-Adds h _ (refuses e h' l s) = elim (Bool-cases (control.is_not_supported e)) [
    | inl missing ↦ rw missing (adds tt h' (l ∙ sym (append-nil (log h))) s)
    | inr failed ↦ rw failed (refuses e h' l s)
  ]

  -- Let each control transfer be taken by the device or fail, let detaching the kernel driver and
  -- claiming the interface take no transfer and send nothing, and let every bulk write take at least
  -- one of the bytes it is given, in order, or fail and take none, and be no control transfer. Then
  -- `ftdi_init` does not panic. On success the device has taken the reset, the bit mode, the latency
  -- and the two purges, in this order and with the interface's index, and has been sent the whole
  -- init command; on failure it has taken the first of these transfers only and been sent nothing,
  -- or has taken all of them and been sent a part of the command from its front.
  pub ftdi_init-Prepared :
      Apart
      → ((h : H) (c : ℕ) (values : Bytes)
          → Writes handle sent h (c ∷ values) (handle.write (c ∷ values) h))
      → ((h : H) → Adds h [] (control.set_auto_detach_kernel_driver h))
      → ((h : H) → Adds h [] (control.claim iface h))
      → ((request value : ℕ) (h : H)
          → Adds h
              (request_of request value ∷ [])
              (control.write_control bmreqtype_out request value (iface + 1) h))
      → (loopback : Bool) (h : H)
      → Prepared h setup
          (init_cmd loopback)
          (ftdi_init control iface bmreqtype_out handle init_cmd loopback h)
  unfolding ftdi_init claim_interface
  ftdi_init-Prepared apart writes detach claim transfers loopback h =
      then_do-Prepared h [] setup (init_cmd loopback) _ _
        (then_do-Adds h _ _ (detached-Adds h _ (detach h)) (λ _ h₁. claim h₁))
        (λ _ h₁.
          then_do-Prepared h₁ (request_of breq_reset wval_reset_reset ∷ []) _ (init_cmd loopback) _
            _ (transfers _ _ h₁)
            (λ _ h₂.
              then_do-Prepared h₂ (request_of breq_set_bitmode wval_set_bitmode_mpsse ∷ []) _
                (init_cmd loopback) _ _ (transfers _ _ h₂)
                (λ _ h₃.
                  then_do-Prepared h₃ (request_of breq_set_latency 2 ∷ []) _ (init_cmd loopback) _ _
                    (transfers _ _ h₃)
                    (λ _ h₄.
                      then_do-Prepared h₄ (request_of breq_reset wval_reset_purge_tx ∷ []) _
                        (init_cmd loopback) _ _ (transfers _ _ h₄)
                        (λ _ h₅.
                          then_do-Prepared h₅ (request_of breq_reset wval_reset_purge_rx ∷ []) []
                            (init_cmd loopback) _ _ (transfers _ _ h₅)
                            (λ _ h₆. send_init-Prepared apart writes loopback h₆))))))
