-- ===== src/DebugBridge/Open/Held.antt =====
-- What is open after a debug bridge's backend was opened, and after it was dropped.
use xvc_rs.Prelude.{
  ℕ, ◌<◌, ◌≡◌, refl, ap, ◌∙◌, Bool, false, ◌==◌, ==_refl, List, ◌∷◌, arith, Bytes, Outcome, ok, err,
  panic, then_do,
}
use xvc_rs.Errors.{IoError}
use xvc_rs.DebugBridge.Properties.{XvcProperties}
use xvc_rs.DebugBridge.Os.{Os, ℤ, pos, Resource, file, mapping, Holds, Documented}
use xvc_rs.DebugBridge.Open.{
  Mapped, map_size, mmap_file, new_uio, new_with_path, drop_mapped, log_properties, or_close,
  new_kernel_driver,
}

module _ {S : Type 0} (os : Os S) (held : S → List Resource) where
  pub Holds-then_do :
      {A B : Type 0} (before : List Resource) (P : A → S → Type 0) (Q : B → S → Type 0)
      (r : Outcome IoError A × S) (next : A → S → Outcome IoError B × S)
      → Holds os held before P r
      → ((a : A) (s : S) → P a s → Holds os held before Q (next a s))
      → Holds os held before Q (then_do r next)
  Holds-then_do before P Q (ok a, s) next h k = k a s h
  Holds-then_do before P Q (err e, s) next h k = h
  Holds-then_do before P Q (panic, s) next h k = h

module _ {S : Type 0} (os : Os S) (held : S → List Resource) (doc : Documented os held) where
  -- The backend has this mapping.
  abbrev pub Maps : Bytes → ℤ → ℕ → List Resource → Mapped → S → Type 0
  Maps path offset poll_timeout before backend s =
      (held s ≡ mapping backend.mem map_size path offset ∷ before)
      × (0 < backend.mem)
      × (backend.poll_timeout ≡ poll_timeout)

  pub held-close :
      (f : ℕ) (path : Bytes) (others : List Resource) (s : S)
      → held s ≡ file f path ∷ others
      → held (os.close f s) ≡ others
  held-close f path others s e = rw (doc.closes f s, e, ==_refl f) refl

  close_behind :
      (f p : ℕ) (path : Bytes) (offset : ℤ) (others : List Resource) (s : S)
      → held s ≡ mapping p map_size path offset ∷ file f path ∷ others
      → held (os.close f s) ≡ mapping p map_size path offset ∷ others
  close_behind f p path offset others s e = rw (doc.closes f s, e, ==_refl f) refl

  mmap_file-Holds :
      (f : ℕ) (path : Bytes) (offset : ℤ) (s : S) (others : List Resource)
      → held s ≡ file f path ∷ others
      → Holds os held others
          (λ p s'. (held s' ≡ mapping p map_size path offset ∷ others) × (0 < p))
          (mmap_file os f offset s)
  unfolding mmap_file
  mmap_file-Holds f path offset s others e =
      after (os.mmap map_size f offset s) (doc.maps map_size f path offset s others e)
    where
      after :
          (r : Outcome IoError ℕ × S)
          → Holds os held
              (held s)
              (λ p s'. (held s' ≡ mapping p map_size path offset ∷ held s) × (0 < p))
              r
          → Holds os held others
              (λ p s'. (held s' ≡ mapping p map_size path offset ∷ others) × (0 < p))
              (r.0, os.close f r.1)
      after (ok p, s') (h, some_ptr) = (
        close_behind f p path offset others s' (h ∙ ap (λ t. mapping p map_size path offset ∷ t) e),
        some_ptr,
      )
      after (err x, s') h = held-close f path others s' (h ∙ e)
      after (panic, s') h = held-close f path others s' (h ∙ e)

  pub new_with_path-Holds :
      (path : Bytes) (address : ℤ) (poll_timeout : ℕ) (s : S)
      → Holds os held
          (held s)
          (Maps path address poll_timeout (held s))
          (new_with_path os path address poll_timeout s)
  unfolding new_with_path
  new_with_path-Holds path address poll_timeout s =
      let Q : Mapped → S → Type 0 = Maps path address poll_timeout (held s) in
      Holds-then_do os held (held s) _ Q _ _ (doc.opens path s) λ f s₁ opened.
        Holds-then_do os held (held s) _ Q (mmap_file os f address s₁)
          (λ p s₂. (ok (record { mem = p; poll_timeout = poll_timeout }), s₂))
          (mmap_file-Holds f path address s₁ (held s) opened) λ p s₂ h. (h.0, h.1, refl)

  pub new_uio-Holds :
      (path : Bytes) (poll_timeout : ℕ) (s : S)
      → Holds os held
          (held s)
          (Maps path (pos 0) poll_timeout (held s))
          (new_uio os path poll_timeout s)
  unfolding new_uio new_with_path
  new_uio-Holds path poll_timeout s = new_with_path-Holds path (pos 0) poll_timeout s

  pub held-drop_mapped :
      (path : Bytes) (offset : ℤ) (poll_timeout : ℕ) (before : List Resource) (backend : Mapped)
      (s : S)
      → Maps path offset poll_timeout before backend s
      → held (drop_mapped os backend s) ≡ before
  unfolding drop_mapped
  held-drop_mapped path offset poll_timeout before backend s (h, some_ptr, _) =
      rw (nonnull, doc.unmaps backend.mem map_size s, h, ==_refl backend.mem) refl
    where
      nonnull : (backend.mem == 0) ≡ false
      nonnull = ground arith

  pub new_kernel_driver-Holds :
      (logs : Bool) (path : Bytes) (s : S)
      → Holds os held
          (held s)
          (λ f s'. held s' ≡ file f path ∷ held s)
          (new_kernel_driver os logs path s)
  unfolding new_kernel_driver
  new_kernel_driver-Holds logs path s =
      Holds-then_do os held (held s) _ _ _ _ (doc.opens path s)
        λ f s₁ opened. after f s₁ opened (os.xvc_read_properties f s₁) (doc.reads f s₁)
    where
      closes :
          (f : ℕ) (s' : S) (r : Outcome IoError (Unit {0}))
          → held s' ≡ file f path ∷ held s
          → Holds os held (held s) (λ f s'. held s' ≡ file f path ∷ held s) (or_close os f (r, s'))
      closes f s' (ok _) e = e
      closes f s' (err x) e = held-close f path (held s) s' e
      closes f s' panic e = held-close f path (held s) s' e

      after :
          (f : ℕ) (s₁ : S)
          → held s₁ ≡ file f path ∷ held s
          → (r : Outcome IoError XvcProperties × S)
          → Holds os held (held s₁) (λ properties s'. held s' ≡ held s₁) r
          → Holds os held
              (held s)
              (λ f s'. held s' ≡ file f path ∷ held s)
              (or_close os f (then_do r λ properties s₂. (log_properties os logs properties, s₂)))
      after f s₁ e (ok properties, s₂) h = closes f s₂ (log_properties os logs properties) (h ∙ e)
      after f s₁ e (err x, s₂) h = closes f s₂ (err x) (h ∙ e)
      after f s₁ e (panic, s₂) h = closes f s₂ panic (h ∙ e)
