-- ===== src/Ftdi/Discovery/Endpoints.antt =====
-- The choice of an adapter's endpoints, by its bulk endpoints of each direction.
use xvc_rs.Prelude.{
  ℕ, ◌≡◌, refl, sym, ◌∙◌, ◌&&◌, ◌==◌, if◌then◌else◌, Option, some, none, List, [], ◌∷◌, Outcome, ok,
  get_elem?,
}
use xvc_rs.Ftdi.Discovery.{
  Kind, bulk_in, bulk_out, other_kind, Endpoint, Interface, Descriptor, Device, FtdiJtagDevice,
  ftdi_vid, is_known, pick, or_else, open_device, with_endpoints, with_interface, check_device,
}

abbrev pub bulk_ins : List Endpoint → List Endpoint
bulk_ins [] = []
bulk_ins (ep ∷ eps) = elim ep.kind [
  | bulk_in ↦ ep ∷ bulk_ins eps
  | bulk_out ↦ bulk_ins eps
  | other_kind ↦ bulk_ins eps
]

abbrev pub bulk_outs : List Endpoint → List Endpoint
bulk_outs [] = []
bulk_outs (ep ∷ eps) = elim ep.kind [
  | bulk_in ↦ bulk_outs eps
  | bulk_out ↦ ep ∷ bulk_outs eps
  | other_kind ↦ bulk_outs eps
]

-- One of them at most, with the one that was found before.
abbrev at_most_one : Option Endpoint → List Endpoint → Option (Option Endpoint)
at_most_one found [] = some found
at_most_one none (ep ∷ []) = some (some ep)
at_most_one none (ep ∷ _ ∷ _) = none
at_most_one (some _) (_ ∷ _) = none

abbrev both :
    Option (Option Endpoint) → Option (Option Endpoint) → Option (Option Endpoint × Option Endpoint)
both none second = none
both (some a) none = none
both (some a) (some b) = some (a, b)

both-none : (a : Option (Option Endpoint)) → both a none ≡ none
both-none none = refl
both-none (some a) = refl

at_most_one-some :
    (ep : Endpoint) (eps : List Endpoint) → at_most_one (some ep) eps ≡ at_most_one none (ep ∷ eps)
at_most_one-some ep [] = refl
at_most_one-some ep (_ ∷ _) = refl

Agrees : List Endpoint → Option Endpoint → Option Endpoint → Type 0
Agrees eps output_ep input_ep =
    pick eps output_ep input_ep
    ≡ both (at_most_one output_ep (bulk_outs eps)) (at_most_one input_ep (bulk_ins eps))

pick-both_next :
    (ep : Endpoint) (eps : List Endpoint) (kind : Kind) (output_ep input_ep : Option Endpoint)
    → ((a b : Option Endpoint) → Agrees eps a b)
    → ep.kind ≡ kind
    → Agrees (ep ∷ eps) output_ep input_ep
unfolding pick Agrees
pick-both_next ep eps bulk_in output_ep none later e =
    rw e (later output_ep (some ep) ∙ rw (at_most_one-some ep (bulk_ins eps)) refl)
pick-both_next ep eps bulk_in output_ep (some _) later e = rw e (sym (both-none _))
pick-both_next ep eps bulk_out none input_ep later e =
    rw e (later (some ep) input_ep ∙ rw (at_most_one-some ep (bulk_outs eps)) refl)
pick-both_next ep eps bulk_out (some _) input_ep later e = rw e refl
pick-both_next ep eps other_kind output_ep input_ep later e = rw e (later output_ep input_ep)

pick-both :
    (eps : List Endpoint) (output_ep input_ep : Option Endpoint) → Agrees eps output_ep input_ep
unfolding pick Agrees
pick-both [] none none = refl
pick-both [] none (some _) = refl
pick-both [] (some _) none = refl
pick-both [] (some _) (some _) = refl
pick-both (ep ∷ eps) output_ep input_ep =
    pick-both_next ep eps ep.kind output_ep input_ep (pick-both eps) refl

module _ {E D : Type 0} (device : Device E D) (ftdi_port timeout : ℕ) where
  -- The adapter that a device comes to whose bulk endpoints are `outs` and `ins`.
  abbrev pub adapter :
      Descriptor → ℕ → List Endpoint → List Endpoint → Outcome E (Option (FtdiJtagDevice D))
  adapter descriptor number (output_ep ∷ []) (input_ep ∷ []) =
      open_device device ftdi_port timeout descriptor number output_ep input_ep
  adapter descriptor number _ _ = ok none

  with_endpoints-adapter :
      (descriptor : Descriptor) (number : ℕ) (outs ins : List Endpoint)
      → with_endpoints device ftdi_port timeout descriptor number
          (both (at_most_one none outs) (at_most_one none ins))
        ≡ adapter descriptor number outs ins
  unfolding with_endpoints
  with_endpoints-adapter descriptor number [] [] = refl
  with_endpoints-adapter descriptor number [] (_ ∷ []) = refl
  with_endpoints-adapter descriptor number [] (_ ∷ _ ∷ _) = refl
  with_endpoints-adapter descriptor number (_ ∷ []) [] = refl
  with_endpoints-adapter descriptor number (_ ∷ []) (_ ∷ []) = refl
  with_endpoints-adapter descriptor number (_ ∷ []) (_ ∷ _ ∷ _) = refl
  with_endpoints-adapter descriptor number (_ ∷ _ ∷ _) ins = refl

  -- For a device whose descriptor, configuration (the active one or else the first) and first
  -- interface descriptor at the given port can be read: `check_device` takes it for an adapter if
  -- its class, its vendor and its product are the known ones and it has exactly one bulk endpoint of
  -- each direction there, with these two as the adapter's endpoints; else it takes it for none and
  -- does not open it.
  pub check_device-adapter :
      (descriptor : Descriptor) (interfaces : List Interface) (iface : Interface)
      (eps : List Endpoint) (others : List (List Endpoint))
      → device.device_descriptor ≡ ok descriptor
      → or_else device.active_config_descriptor device.config_descriptor ≡ ok interfaces
      → get_elem? interfaces ftdi_port ≡ some iface
      → iface.descriptors ≡ eps ∷ others
      → check_device device ftdi_port timeout ≡ (
          if descriptor.class_code == 0
            && (descriptor.vendor_id == ftdi_vid && is_known descriptor.product_id)
          then adapter descriptor iface.number (bulk_outs eps) (bulk_ins eps)
          else ok none)
  unfolding check_device with_interface Agrees
  check_device-adapter descriptor interfaces iface eps others a b c d =
      rw
        (
          a,
          b,
          c,
          d,
          pick-both eps none none,
          with_endpoints-adapter descriptor iface.number (bulk_outs eps) (bulk_ins eps),
        )
        refl
