-- ===== src/Examples/Plugged.antt =====
-- FTDI adapters as they are plugged in, their labels, and their set-up.
use xvc_rs.Prelude.{
  get_elem?, ℕ, ◌+◌, ◌≡◌, refl, sym, Bool, true, ◌&&◌, ◌==◌, if◌then◌else◌, some, none, List, [],
  ◌∷◌, ◌++◌, append-nil, arith, Bytes, codes, ok, err, length, take,
}
use xvc_rs.Errors.{IoError}
use xvc_rs.Client.{closed}
use xvc_rs.Ftdi.Usb.{UsbHandle, Pipes, pipes}
use xvc_rs.Ftdi.Usb.Write.{Writes}
use xvc_rs.Ftdi.Discovery.{
  FtdiJtagDevice, bulk_in, bulk_out, Endpoint, Interface, Descriptor, Device, check_device,
  is_known, ftdi_vid,
}
use xvc_rs.Ftdi.Discovery.Endpoints.{adapter, check_device-adapter}
use xvc_rs.Text.{decimal, decimal_onto}
use xvc_rs.Ftdi.Disambiguation.{
  cells, line, pad_row, width, widths, rows_of, device_labels, show_info,
}
use xvc_rs.Ftdi.Disambiguation.Labels.{Aligned, device_labels-Aligned}
use xvc_rs.Ftdi.Setup.{Control, ftdi_init}
use xvc_rs.Ftdi.Setup.Order.{Transfer, Prepared, Adds, setup, ftdi_init-Prepared}

abbrev pub descriptor : Descriptor
descriptor = record {
  class_code = 0;
  vendor_id = 0x0403;
  product_id = 0x6014;
  manufacturer_string_index = some 1;
  product_string_index = some 2;
  serial_number_string_index = none;
}

abbrev pub in_endpoint : Endpoint
in_endpoint = record { kind = bulk_in; address = 0x81; max_packet_size = 512 }

abbrev pub out_endpoint : Endpoint
out_endpoint = record { kind = bulk_out; address = 0x02; max_packet_size = 512 }

abbrev pub interface : Interface
interface = record { number = 0; descriptors = (in_endpoint ∷ out_endpoint ∷ []) ∷ [] }

-- Its active configuration cannot be read, and its first one can.
abbrev pub plugged : Device IoError ℕ
plugged = record {
  device_descriptor = ok descriptor;
  active_config_descriptor = err closed;
  config_descriptor = ok (interface ∷ []);
  opened = ok 7;
  read_string = λ handle index. ok (codes "FTDI");
  bus_number = 1;
  address = 4;
}

check_device-adapter_example : check_device plugged 0 1000 ≡ (
    if descriptor.class_code == 0
      && (descriptor.vendor_id == ftdi_vid && is_known descriptor.product_id)
    then adapter plugged 0 1000 descriptor 0 (out_endpoint ∷ []) (in_endpoint ∷ [])
    else ok none)
check_device-adapter_example =
    check_device-adapter plugged 0 1000 descriptor (interface ∷ []) interface
      (in_endpoint ∷ out_endpoint ∷ []) [] refl refl refl refl

-- The transfers that a device has taken, and the bytes that it was sent.
abbrev pub Seen : Type 0
Seen = List Transfer × Bytes

abbrev pub seen_transfers : Seen → List Transfer
seen_transfers h = h.0

abbrev pub seen_bytes : Seen → Bytes
seen_bytes h = h.1

abbrev pub taker_handle : UsbHandle Seen IoError
taker_handle = record {
  write = λ endpoint values timeout h. (ok (length (take 1 values)), (h.0, h.1 ++ take 1 values));
  read = λ endpoint n timeout h. (ok [], h);
  timed_out = closed;
}

abbrev taker : Pipes Seen IoError
taker = pipes taker_handle 0x02 0x81 1000

-- It has no kernel driver to detach.
abbrev pub obedient : Control Seen IoError
obedient = record {
  set_auto_detach_kernel_driver = λ h. (err closed, h);
  claim = λ iface h. (ok tt, h);
  write_control = λ request_type request value index h. (
    ok 0,
    (
      h.0
          ++ record { request_type = request_type; request = request; value = value; index = index }
            ∷ [],
      h.1,
    ),
  );
  is_not_supported = λ e. true;
}

abbrev pub init_bytes : Bool → Bytes
init_bytes loopback = (if loopback then 0x84 else 0x85) ∷ 0x8D ∷ 0x97 ∷ 0x80 ∷ 0x08 ∷ 0x0B ∷ []

ftdi_init-Prepared_example :
    Prepared obedient 0 0x40 taker init_bytes seen_transfers seen_bytes
      ([], [])
      (setup obedient 0 0x40 taker init_bytes seen_transfers seen_bytes)
      (init_bytes true)
      (ftdi_init obedient 0 0x40 taker init_bytes true ([], []))
ftdi_init-Prepared_example =
    ftdi_init-Prepared obedient 0 0x40 taker init_bytes seen_transfers seen_bytes (λ values h. refl)
      (λ h c values. Writes.takes 1 (h.0, h.1 ++ c ∷ []) (omega arith) (omega arith) refl)
      (λ h. Adds.refuses closed h refl refl) (λ h. Adds.adds tt h (sym (append-nil h.0)) refl)
      (λ request value h.
        Adds.adds 0
          (
            h.0
                ++ record { request_type = 0x40; request = request; value = value; index = 0 + 1 }
                  ∷ [],
            h.1,
          )
          refl refl)
      true ([], [])

-- Two adapters, one of which has no serial number.
abbrev first : FtdiJtagDevice ℕ
first = record {
  handle = 7;
  info = record {
    manufacturer = some (codes "FTDI");
    product = some (codes "Cable");
    serial = some (codes "A1");
    product_id = 0x6014;
    bus_number = 1;
    address = 4;
  };
  iface = 0;
  bulk_out = record { address = 0x02; request_size = 512 };
  bulk_in = record { address = 0x81; request_size = 512 };
  timeout = 1000;
}

abbrev second : FtdiJtagDevice ℕ
second = record first {
  info = record {
    manufacturer = none;
    product = none;
    serial = none;
    product_id = 0x6010;
    bus_number = 1;
    address = 12;
  };
}

trim_spaces : Bytes → Bytes
trim_spaces [] = []
trim_spaces (c ∷ s) = let t = trim_spaces s in if c == 0x20 && length t == 0 then [] else c ∷ t

device_labels_test :
    device_labels trim_spaces (first ∷ second ∷ [])
    ≡ codes "Cable            FT232H   serial A1  bus 001 device 004"
      ∷ codes "Unknown product  FT2232H  no serial  bus 001 device 012"
      ∷ []
unfolding device_labels cells line pad_row width decimal decimal_onto trim_spaces
device_labels_test = refl

show_info_test :
    show_info first.info ≡ codes "Cable (FT232H, by FTDI, serial A1, bus 001 device 004)"
unfolding show_info decimal decimal_onto
show_info_test = refl

device_labels-Aligned_example :
    (shown : Bytes) × (get_elem? (device_labels trim_spaces (first ∷ second ∷ [])) 1
      ≡ some (trim_spaces shown))
    × Aligned (widths (rows_of trim_spaces (first ∷ second ∷ []))) (cells second.info) shown
device_labels-Aligned_example =
    device_labels-Aligned trim_spaces (first ∷ second ∷ []) 1 second refl
