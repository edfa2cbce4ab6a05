-- ===== src/Ftdi/Disambiguation/Labels.antt =====
-- The labels of the devices in the prompt stand in columns.
use xvc_rs.Prelude.{
  ℕ, zero, suc, ◌-◌, ◌≤◌, ◌≡◌, refl, ap, Option, some, none, List, [], ◌∷◌, ◌++◌, map, arith, Bytes,
  length, length-append, length-replicate, replicate, get_elem?, codes,
}
use xvc_rs.Ftdi.Discovery.{FtdiJtagDevice}
use xvc_rs.Ftdi.Disambiguation.{
  bus_place, cells, cell_width, width, widths, padded, pad_row, line, rows_of, device_labels,
}

length-padded : (cell : Bytes) (w : ℕ) → length cell ≤ w → length (padded cell w) ≡ w
length-padded cell w h = omega (
  arith,
  length-append cell (replicate (w - length cell) 0x20),
  length-replicate {A = ℕ} (w - length cell) 0x20,
)

-- A column's cell, with spaces behind it, as wide as the column.
abbrev pub InColumn : Bytes → ℕ → Bytes → Type 0
InColumn cell w shown = (spaces : ℕ) × (shown ≡ cell ++ replicate spaces 0x20) × (length shown ≡ w)

in_column : (cell : Bytes) (w : ℕ) → length cell ≤ w → InColumn cell w (padded cell w)
in_column cell w h = (w - length cell, refl, length-padded cell w h)

some-injective : {A : Type 0} {x y : A} → ◌≡◌ {A = Option A} (some x) (some y) → x ≡ y
some-injective {A} {x} e = ap (λ o. elim o [ none ↦ x | some a ↦ a ]) e

get_elem?-map :
    {A B : Type 0} (f : A → B) (xs : List A) (i : ℕ) (x : A)
    → get_elem? xs i ≡ some x
    → get_elem? (map f xs) i ≡ some (f x)
get_elem?-map f [] i x e = cc
get_elem?-map f (y ∷ xs) zero x e = ap (λ a. some (f a)) (some-injective e)
get_elem?-map f (y ∷ xs) (suc i) x e = get_elem?-map f xs i x e

cell_width-le :
    (col : ℕ) (rows : List (List Bytes)) (i : ℕ) (row : List Bytes)
    → get_elem? rows i ≡ some row
    → cell_width col row ≤ width rows col
unfolding width
cell_width-le col [] i row e = cc
cell_width-le col (first ∷ rows) zero row e =
    (let same : first ≡ row = some-injective e in rw same (omega arith))
cell_width-le col (first ∷ rows) (suc i) row e = omega (arith, cell_width-le col rows i row e)

-- A row of four cells as it is shown: each in its column, with two spaces between the columns.
abbrev pub Aligned : List ℕ → List Bytes → Bytes → Type 0
Aligned (w₀ ∷ w₁ ∷ w₂ ∷ w₃ ∷ []) (a ∷ b ∷ c ∷ d ∷ []) shown =
    (s₀ : Bytes) × (s₁ : Bytes) × (s₂ : Bytes) × (s₃ : Bytes) × (shown
      ≡ s₀ ++ codes "  " ++ (s₁ ++ codes "  " ++ (s₂ ++ codes "  " ++ s₃)))
    × InColumn a w₀ s₀
    × InColumn b w₁ s₁
    × InColumn c w₂ s₂
    × InColumn d w₃ s₃
Aligned _ _ shown = ⊥

line-Aligned :
    (w₀ w₁ w₂ w₃ : ℕ) (a b c d : Bytes)
    → length a ≤ w₀
    → length b ≤ w₁
    → length c ≤ w₂
    → length d ≤ w₃
    → Aligned
        (w₀ ∷ w₁ ∷ w₂ ∷ w₃ ∷ [])
        (a ∷ b ∷ c ∷ d ∷ [])
        (line (w₀ ∷ w₁ ∷ w₂ ∷ w₃ ∷ []) (a ∷ b ∷ c ∷ d ∷ []))
unfolding line pad_row
line-Aligned w₀ w₁ w₂ w₃ a b c d h₀ h₁ h₂ h₃ = (
  padded a w₀,
  padded b w₁,
  padded c w₂,
  padded d w₃,
  refl,
  in_column a w₀ h₀,
  in_column b w₁ h₁,
  in_column c w₂ h₂,
  in_column d w₃ h₃,
)

module _ {D : Type 0} (trim_end : Bytes → Bytes) where
  -- The label of the `i`th of several devices is, before spaces are trimmed off its end, its
  -- product, chip, serial and bus cells, each with spaces behind it up to the width of its column,
  -- the same for all devices, and two spaces between the columns.
  pub device_labels-Aligned :
      (devices : List (FtdiJtagDevice D)) (i : ℕ) (device : FtdiJtagDevice D)
      → get_elem? devices i ≡ some device
      → (shown : Bytes) × (get_elem? (device_labels trim_end devices) i ≡ some (trim_end shown))
        × Aligned (widths (rows_of trim_end devices)) (cells device.info) shown
  unfolding device_labels cells
  device_labels-Aligned devices i device e =
      let rows = rows_of {D = D} trim_end devices in
      let here : get_elem? rows i ≡ some (cells device.info) =
        get_elem?-map (λ device. cells device.info) devices i device e in
      (
        line (widths rows) (cells device.info),
        get_elem?-map (λ row. trim_end (line (widths rows) row)) rows i (cells device.info) here,
        line-Aligned (width rows 0) (width rows 1) (width rows 2) (width rows 3) _ _ _
            (bus_place device.info) (cell_width-le 0 rows i (cells device.info) here)
            (cell_width-le 1 rows i (cells device.info) here)
            (cell_width-le 2 rows i (cells device.info) here)
            (cell_width-le 3 rows i (cells device.info) here),
      )
