-- ===== src/DebugBridge/Os.antt =====
-- What the debug bridge server calls on the operating system, and what is open there.
use xvc_rs.Prelude.{
  ℕ, ◌-◌, ◌^◌, ◌<◌, ◌≡◌, Bool, ltb, ◌==◌, ◌&&◌, if◌then◌else◌, Option, List, [], ◌∷◌, Bytes,
  Outcome, ok, err, panic,
}
use xvc_rs.Errors.{IoError}
use xvc_rs.Server.{SocketAddr}
use xvc_rs.DebugBridge.Select.{Entry}
use xvc_rs.DebugBridge.Properties.{XvcProperties}

-- An `i64`; `negsuc n` is -(n + 1).
pub data ℤ : Type 0 where
  pos : ℕ → ℤ
  negsuc : ℕ → ℤ

-- `address as i64` for a `u64`
unfoldable pub as_i64 : ℕ → ℤ
as_i64 address = if ltb address (2 ^ 63) then pos address else negsuc (2 ^ 64 - 1 - address)

-- The calls, on the system's state `S`. Files, mapped memory and listeners are known by a number. The
-- result of `munmap` is not looked at.
pub record Os (S : Type 0) : Type 0 where
  pub exists : Bytes → S → Bool
  -- `Path::new("/sys/class/uio").read_dir()`
  pub uio_class : S → Option (List Entry)
  pub open_file : Bytes → S → Outcome IoError ℕ × S
  pub close : ℕ → S → S
  -- the size, the file and the offset
  pub mmap : ℕ → ℕ → ℤ → S → Outcome IoError ℕ × S
  -- the pointer and the size
  pub munmap : ℕ → ℕ → S → S
  pub xvc_read_properties : ℕ → S → Outcome IoError XvcProperties × S
  pub bind : SocketAddr → S → Outcome IoError ℕ × S
  pub close_listener : ℕ → S → S

-- What a process has open: a file by its path, memory by the pointer, the size, the path of what is
-- mapped and the offset, a listener by its address.
pub data Resource : Type 0 where
  file : ℕ → Bytes → Resource
  mapping : ℕ → ℕ → Bytes → ℤ → Resource
  listener : ℕ → SocketAddr → Resource

-- The tests by which a call releases a resource.
abbrev pub is_file : ℕ → Resource → Bool
is_file f (file g path) = f == g
is_file f (mapping p n path offset) = Bool.false
is_file f (listener l addr) = Bool.false

abbrev pub is_mapping : ℕ → ℕ → Resource → Bool
is_mapping q m (file g path) = Bool.false
is_mapping q m (mapping p n path offset) = q == p && m == n
is_mapping q m (listener l addr) = Bool.false

abbrev pub is_listener : ℕ → Resource → Bool
is_listener k (file g path) = Bool.false
is_listener k (mapping p n path offset) = Bool.false
is_listener k (listener l addr) = k == l

-- The list without the first resource that passes a test.
abbrev pub release : (Resource → Bool) → List Resource → List Resource
release test [] = []
release test (r ∷ rs) = if test r then rs else r ∷ release test rs

module _ {S : Type 0} (os : Os S) (held : S → List Resource) where
  -- A call keeps what is open where it fails, and comes to `P` where it succeeds.
  abbrev pub Holds :
      {A : Type 0} → List Resource → (A → S → Type 0) → Outcome IoError A × S → Type 0
  Holds before P (ok a, s) = P a s
  Holds before P (err e, s) = held s ≡ before
  Holds before P (panic, s) = held s ≡ before

  -- What the documents of the calls say about the resources: a call that fails opens none; `mmap` of
  -- an open file keeps the file and gives memory that is not null.
  pub record Documented : Type 0 where
    pub opens :
        (path : Bytes) (s : S)
        → Holds (held s) (λ f s'. held s' ≡ file f path ∷ held s) (os.open_file path s)
    pub closes : (f : ℕ) (s : S) → held (os.close f s) ≡ release (is_file f) (held s)
    pub maps :
        (size f : ℕ) (path : Bytes) (offset : ℤ) (s : S) (others : List Resource)
        → held s ≡ file f path ∷ others
        → Holds
            (held s)
            (λ p s'. (held s' ≡ mapping p size path offset ∷ held s) × (0 < p))
            (os.mmap size f offset s)
    pub unmaps :
        (p size : ℕ) (s : S) → held (os.munmap p size s) ≡ release (is_mapping p size) (held s)
    pub reads :
        (f : ℕ) (s : S)
        → Holds (held s) (λ properties s'. held s' ≡ held s) (os.xvc_read_properties f s)
    pub binds :
        (addr : SocketAddr) (s : S)
        → Holds (held s) (λ l s'. held s' ≡ listener l addr ∷ held s) (os.bind addr s)
    pub unbinds : (l : ℕ) (s : S) → held (os.close_listener l s) ≡ release (is_listener l) (held s)
