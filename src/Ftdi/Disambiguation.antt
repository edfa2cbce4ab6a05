-- ===== src/Ftdi/Disambiguation.antt =====
-- xvc-server-usb/src/disambiguation.rs, which device the server takes, and the description of a device
-- in ftdi_device.rs. rusb's strings are ASCII, so that a string is the list of its characters.
pub mod Labels
pub mod Taken
use Prim.Native.Nat.{max}
use xvc_rs.Prelude.{
  ℕ, zero, suc, ◌+◌, ◌-◌, ◌≡◌, Bool, true, false, not, if◌then◌else◌, Option, some, none, List, [],
  ◌∷◌, ◌++◌, map, Bytes, length, replicate, codes,
}
use xvc_rs.Text.{decimal}
use xvc_rs.Ftdi.Discovery.{DeviceInfo, FtdiJtagDevice, chip_model}

-- `{:03}`
abbrev pub three_digits : ℕ → Bytes
three_digits n = replicate (3 - length (decimal n)) 0x30 ++ decimal n

-- `bus {:03} device {:03}`
abbrev pub bus_place : DeviceInfo → Bytes
bus_place info =
    codes "bus " ++ three_digits info.bus_number ++ codes " device " ++ three_digits info.address

abbrev pub unwrap_or : Option Bytes → Bytes → Bytes
unwrap_or none text = text
unwrap_or (some s) text = s

-- `join`
abbrev pub join : Bytes → List Bytes → Bytes
join separator [] = []
join separator (s ∷ []) = s
join separator (s ∷ t ∷ strings) = s ++ separator ++ join separator (t ∷ strings)

-- A detail of a description that may be missing.
abbrev pub detail : Bytes → Option Bytes → List Bytes
detail before none = []
detail before (some s) = (before ++ s) ∷ []

-- `impl Display for DeviceInfo`
unfoldable pub show_info : DeviceInfo → Bytes
show_info info =
    let details =
      detail [] (chip_model info.product_id)
      ++ detail (codes "by ") info.manufacturer
      ++ detail (codes "serial ") info.serial
      ++ bus_place info ∷ [] in
    unwrap_or info.product (codes "FTDI device")
    ++ codes " ("
    ++ join (codes ", ") details
    ++ codes ")"

-- The cells of a device's row.
unfoldable pub cells : DeviceInfo → List Bytes
cells info =
    unwrap_or info.product (codes "Unknown product")
    ∷ unwrap_or (chip_model info.product_id) (codes "unknown chip")
    ∷ (elim info.serial [ none ↦ codes "no serial" | some serial ↦ codes "serial " ++ serial ])
    ∷ bus_place info
    ∷ []

-- `row[col].chars().count()`
abbrev pub cell_width : ℕ → List Bytes → ℕ
cell_width col [] = 0
cell_width zero (cell ∷ row) = length cell
cell_width (suc col) (cell ∷ row) = cell_width col row

-- The width of a column, the maximum over the rows.
unfoldable pub width : List (List Bytes) → ℕ → ℕ
width [] col = 0
width (row ∷ rows) col = max (cell_width col row) (width rows col)

abbrev pub widths : List (List Bytes) → List ℕ
widths rows = width rows 0 ∷ width rows 1 ∷ width rows 2 ∷ width rows 3 ∷ []

-- `{cell:<width$}`
abbrev pub padded : Bytes → ℕ → Bytes
padded cell w = cell ++ replicate (w - length cell) 0x20

-- `row.iter().zip(widths)`, each cell padded.
unfoldable pub pad_row : List Bytes → List ℕ → List Bytes
pad_row [] ws = []
pad_row (cell ∷ row) [] = []
pad_row (cell ∷ row) (w ∷ ws) = padded cell w ∷ pad_row row ws

-- A line, before `trim_end`.
unfoldable pub line : List ℕ → List Bytes → Bytes
unfolding pad_row
line ws row = join (codes "  ") (pad_row row ws)

module _ {D : Type 0} (trim_end : Bytes → Bytes) where
  abbrev pub rows_of : List (FtdiJtagDevice D) → List (List Bytes)
  rows_of devices = map (λ device. cells device.info) devices

  unfoldable pub device_labels : List (FtdiJtagDevice D) → List Bytes
  unfolding line
  device_labels devices =
      map (λ row. trim_end (line (widths (rows_of devices)) row)) (rows_of devices)

  -- `labels.into_iter().zip(available)`
  abbrev pub choices : List Bytes → List (FtdiJtagDevice D) → List (Bytes × FtdiJtagDevice D)
  choices [] devices = []
  choices (label ∷ labels) [] = []
  choices (label ∷ labels) (device ∷ devices) = (label, device) ∷ choices labels devices

  -- `select` is the prompt, and `none` for a prompt that is aborted or fails.
  module _ (select : List (Bytes × FtdiJtagDevice D) → Option (Bytes × FtdiJtagDevice D)) where
    unfoldable pub prompt_device_selection : List (FtdiJtagDevice D) → Option (FtdiJtagDevice D)
    unfolding device_labels
    prompt_device_selection available =
        elim (select (choices (device_labels available) available)) [
          | none ↦ none
          | some choice ↦ some choice.1
        ]

    unfoldable pub disambiguate_available_devices :
        List (FtdiJtagDevice D) → Bool → Option (FtdiJtagDevice D)
    unfolding prompt_device_selection
    disambiguate_available_devices [] interactive = none
    disambiguate_available_devices (device ∷ []) interactive = some device
    disambiguate_available_devices (a ∷ b ∷ others) interactive =
        if not interactive then none else prompt_device_selection (a ∷ b ∷ others)
