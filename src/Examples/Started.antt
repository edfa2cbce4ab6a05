-- ===== src/Examples/Started.antt =====
-- The USB server with an adapter that takes all that it is sent.
use xvc_rs.Prelude.{
  ℕ, ◌+◌, ◌≡◌, refl, sym, true, false, Option, some, none, List, [], ◌∷◌, ◌++◌, append-nil, arith,
  Bytes, ok, inl, Has,
}
use xvc_rs.Errors.{IoError}
use xvc_rs.Client.{closed}
use xvc_rs.Ftdi.Usb.Write.{Writes}
use xvc_rs.Ftdi.Setup.Order.{Adds}
use xvc_rs.Ftdi.Discovery.{FtdiJtagDevice}
use xvc_rs.Ftdi.Program.{Args, World, main}
use xvc_rs.Ftdi.Program.Ready.{Documented, Ends, main-Ends}
use xvc_rs.Examples.Plugged.{
  Seen, seen_transfers, seen_bytes, taker_handle, obedient, init_bytes, plugged,
}

abbrev first_choice : List (Bytes × FtdiJtagDevice ℕ) → Option (Bytes × FtdiJtagDevice ℕ)
first_choice [] = none
first_choice (c ∷ cs) = some c

abbrev desk : World Seen IoError ℕ
desk = record {
  devices = ok (plugged ∷ []);
  control = λ d. obedient;
  usb = λ d. taker_handle;
  bmreqtype_out = 0x40;
  init_cmd = init_bytes;
  bind = λ addr h. (ok 5, h);
  stdin_is_terminal = true;
  stderr_is_terminal = true;
  trim_end = λ s. s;
  select = first_choice;
}

abbrev args : Args
args = record {
  port = 2542;
  ip = 0 ∷ 0 ∷ 0 ∷ 0 ∷ [];
  ftdi_port = 0;
  loopback = false;
  non_interactive = true;
}

first_choice-Has :
    (cs : List (Bytes × FtdiJtagDevice ℕ)) (c : Bytes × FtdiJtagDevice ℕ)
    → first_choice cs ≡ some c
    → Has c cs
first_choice-Has [] c e = cc
first_choice-Has (d ∷ cs) c e = inl (cc)

desk-Documented : Documented desk args (λ d. seen_transfers) (λ d. seen_bytes)
desk-Documented = record {
  selects = first_choice-Has;
  apart = λ d values h. refl;
  writes = λ d h c values. Writes.takes 1 (h.0, h.1 ++ c ∷ []) (omega arith) (omega arith) refl;
  detaches = λ d h. Adds.refuses closed h refl refl;
  claims = λ d h. Adds.adds tt h (sym (append-nil h.0)) refl;
  transfers = λ d request value h.
      Adds.adds 0
        (
          h.0
              ++ record {
                request_type = 0x40;
                request = request;
                value = value;
                index = d.iface + 1;
              }
                ∷ [],
          h.1,
        )
        refl refl;
  binds = λ d addr h. (refl, refl);
  bind_answers = λ addr h. tt;
}

main-Ends_example :
    Ends desk args (λ d. seen_transfers) (λ d. seen_bytes) ([], []) (main desk args ([], []))
main-Ends_example =
    main-Ends desk args (λ d. seen_transfers) (λ d. seen_bytes) desk-Documented ([], [])
