-- ===== src/Ftdi/Discovery.antt =====
-- xvc-server-usb/src/ftdi_device.rs, from a USB device to an adapter: `check_device` and
-- `list_available_devices`.
pub mod Endpoints
pub mod Listed
use xvc_rs.Prelude.{
  ℕ, zero, suc, ◌≡◌, Bool, true, false, ◌||◌, ◌&&◌, ◌==◌, if◌then◌else◌, Option, some, none, List,
  [], ◌∷◌, Bytes, Outcome, ok, err, panic, ◌>>=◌, get_elem?, codes,
}

abbrev pub ftdi_vid : ℕ
ftdi_vid = 0x0403

-- `KNOWN_PRODUCT_IDS.contains(&product_id)`
abbrev pub is_known : ℕ → Bool
is_known product_id = product_id == 0x6010 || product_id == 0x6011 || product_id == 0x6014

abbrev pub chip_model : ℕ → Option Bytes
chip_model product_id =
    if product_id == 0x6010
    then some (codes "FT2232H")
    else if product_id == 0x6011
    then some (codes "FT4232H")
    else if product_id == 0x6014
    then some (codes "FT232H")
    else none

-- What the match on an endpoint's transfer type and direction tells apart.
pub data Kind : Type 0 where
  bulk_in bulk_out other_kind : Kind

-- What the code asks rusb of an endpoint, an interface, a descriptor and a device. The results of the
-- calls on a device are its fields; an interface's descriptors are given by their endpoints.
pub record Endpoint : Type 0 where
  pub kind : Kind
  pub address : ℕ
  pub max_packet_size : ℕ

pub record Interface : Type 0 where
  pub number : ℕ
  pub descriptors : List (List Endpoint)

pub record Descriptor : Type 0 where
  pub class_code : ℕ
  pub vendor_id : ℕ
  pub product_id : ℕ
  pub manufacturer_string_index : Option ℕ
  pub product_string_index : Option ℕ
  pub serial_number_string_index : Option ℕ

pub record Device (E D : Type 0) : Type 0 where
  pub device_descriptor : Outcome E Descriptor
  pub active_config_descriptor : Outcome E (List Interface)
  pub config_descriptor : Outcome E (List Interface)
  pub opened : Outcome E D
  pub read_string : D → ℕ → Outcome E Bytes
  pub bus_number : ℕ
  pub address : ℕ

pub record DeviceInfo : Type 0 where
  pub manufacturer : Option Bytes
  pub product : Option Bytes
  pub serial : Option Bytes
  pub product_id : ℕ
  pub bus_number : ℕ
  pub address : ℕ

pub record BulkEndpoint : Type 0 where
  pub address : ℕ
  pub request_size : ℕ

pub record FtdiJtagDevice (D : Type 0) : Type 0 where
  pub handle : D
  pub info : DeviceInfo
  pub iface : ℕ
  pub bulk_out : BulkEndpoint
  pub bulk_in : BulkEndpoint
  pub timeout : ℕ

-- The loop over the endpoints, with `output_ep` and `input_ep`; `none` is its early return.
unfoldable pub pick :
    List Endpoint → Option Endpoint → Option Endpoint → Option (Option Endpoint × Option Endpoint)
pick [] output_ep input_ep = some (output_ep, input_ep)
pick (ep ∷ eps) output_ep input_ep =
    let first_in = pick eps output_ep (some ep) in
    let first_out = pick eps (some ep) input_ep in
    let rest = pick eps output_ep input_ep in
    elim ep.kind [
      | bulk_in ↦ elim input_ep [ none ↦ first_in | some _ ↦ none ]
      | bulk_out ↦ elim output_ep [ none ↦ first_out | some _ ↦ none ]
      | other_kind ↦ rest
    ]

-- `a.or(b)?`
abbrev pub or_else : {E A : Type 0} → Outcome E A → Outcome E A → Outcome E A
or_else (ok a) second = ok a
or_else (err e) second = second
or_else panic second = panic

-- A string descriptor, if the device has one.
abbrev pub string_of : {E : Type 0} → (ℕ → Outcome E Bytes) → Option ℕ → Outcome E (Option Bytes)
string_of read none = ok none
string_of read (some index) = read index >>= λ s. ok (some s)

module _ {E D : Type 0} where
  module _ (device : Device E D) (ftdi_port timeout : ℕ) (descriptor : Descriptor) where
    -- What follows the choice of the endpoints.
    unfoldable pub open_device : ℕ → Endpoint → Endpoint → Outcome E (Option (FtdiJtagDevice D))
    open_device number output_ep input_ep = do
      handle ← device.opened
      manufacturer ← string_of (device.read_string handle) descriptor.manufacturer_string_index
      product ← string_of (device.read_string handle) descriptor.product_string_index
      serial ← string_of (device.read_string handle) descriptor.serial_number_string_index
      ok (
          some (record {
            handle = handle;
            info = record {
              manufacturer = manufacturer;
              product = product;
              serial = serial;
              product_id = descriptor.product_id;
              bus_number = device.bus_number;
              address = device.address;
            };
            iface = number;
            bulk_out = record {
              address = output_ep.address;
              request_size = output_ep.max_packet_size;
            };
            bulk_in = record {
              address = input_ep.address;
              request_size = input_ep.max_packet_size;
            };
            timeout = timeout;
          }))

    -- `let Some(output_ep) = … else`, `let Some(input_ep) = … else`
    unfoldable pub with_endpoints :
        ℕ → Option (Option Endpoint × Option Endpoint) → Outcome E (Option (FtdiJtagDevice D))
    unfolding open_device
    with_endpoints number none = ok none
    with_endpoints number (some (none, input_ep)) = ok none
    with_endpoints number (some (some output_ep, none)) = ok none
    with_endpoints number (some (some output_ep, some input_ep)) =
        open_device number output_ep input_ep

    -- `let Some(iface) = … else`, `let Some(iface_desc) = … else`
    unfoldable pub with_interface : Option Interface → Outcome E (Option (FtdiJtagDevice D))
    unfolding with_endpoints pick
    with_interface none = ok none
    with_interface (some iface) = elim iface.descriptors [
      | [] ↦ ok none
      | eps ∷ _ ↦ with_endpoints iface.number (pick eps none none)
    ]

  -- `LIBUSB_CLASS_PER_INTERFACE` is zero.
  unfoldable pub check_device : Device E D → ℕ → ℕ → Outcome E (Option (FtdiJtagDevice D))
  unfolding with_interface
  check_device device ftdi_port timeout = do
    descriptor ← device.device_descriptor
    let usable = or_else device.active_config_descriptor device.config_descriptor >>= λ interfaces.
        with_interface device ftdi_port timeout descriptor (get_elem? interfaces ftdi_port)
    let accepted =
        descriptor.class_code == 0
        && (descriptor.vendor_id == ftdi_vid && is_known descriptor.product_id)
    if accepted then usable else ok none

  -- What one device adds to the list: one that fails is skipped.
  abbrev pub listed :
      Outcome E (Option (FtdiJtagDevice D))
      → Outcome E (List (FtdiJtagDevice D))
      → Outcome E (List (FtdiJtagDevice D))
  listed (ok (some found)) rest = rest >>= λ others. ok (found ∷ others)
  listed (ok none) rest = rest
  listed (err e) rest = rest
  listed panic rest = panic

  unfoldable pub list_devices : List (Device E D) → ℕ → ℕ → Outcome E (List (FtdiJtagDevice D))
  unfolding check_device
  list_devices [] ftdi_port timeout = ok []
  list_devices (device ∷ devices) ftdi_port timeout =
      listed (check_device device ftdi_port timeout) (list_devices devices ftdi_port timeout)

  -- `devices` is what `Context::new()?.devices()?` comes to.
  unfoldable pub list_available_devices :
      Outcome E (List (Device E D)) → ℕ → ℕ → Outcome E (List (FtdiJtagDevice D))
  list_available_devices devices ftdi_port timeout =
      devices >>= λ ds. list_devices ds ftdi_port timeout
