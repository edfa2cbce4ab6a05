-- ===== src/Ftdi/Disambiguation/Taken.antt =====
-- Which of the available devices the server takes.
use mathlib.Core.Path.{subst}
use xvc_rs.Prelude.{
  ◌≡◌, inl, inr, Bool, true, false, Option, some, none, Option-cases, List, [], ◌∷◌, Bytes, Has,
}
use xvc_rs.Ftdi.Discovery.{FtdiJtagDevice}
use xvc_rs.Ftdi.Disambiguation.{
  device_labels, choices, prompt_device_selection, disambiguate_available_devices,
}

module _ {D : Type 0} where
  -- The only device is taken unasked; one of several only where the server may ask, and as answered.
  pub data Taken : List (FtdiJtagDevice D) → Bool → Option (FtdiJtagDevice D) → Type 0 where
    nothing_there : (interactive : Bool) → Taken [] interactive none
    only_one : (d : FtdiJtagDevice D) (interactive : Bool) → Taken (d ∷ []) interactive (some d)
    not_asked :
        (a b : FtdiJtagDevice D) (others : List (FtdiJtagDevice D))
        → Taken (a ∷ b ∷ others) false none
    no_answer :
        (a b : FtdiJtagDevice D) (others : List (FtdiJtagDevice D))
        → Taken (a ∷ b ∷ others) true none
    picked :
        (a b : FtdiJtagDevice D) (others : List (FtdiJtagDevice D)) (d : FtdiJtagDevice D)
        → Has d (a ∷ b ∷ others)
        → Taken (a ∷ b ∷ others) true (some d)

  pub Taken-Has :
      {devices : List (FtdiJtagDevice D)} {interactive : Bool} {r : Option (FtdiJtagDevice D)}
      → Taken devices interactive r
      → (d : FtdiJtagDevice D) → r ≡ some d
      → Has d devices
  Taken-Has (nothing_there interactive) d e = cc
  Taken-Has (only_one a interactive) d e = inl (cc)
  Taken-Has (not_asked a b others) d e = cc
  Taken-Has (no_answer a b others) d e = cc
  Taken-Has (picked a b others c h) d e =
      let same : c ≡ d = cc in subst (λ x. Has x (a ∷ b ∷ others)) same h

  module _ (trim_end : Bytes → Bytes)
      (select : List (Bytes × FtdiJtagDevice D) → Option (Bytes × FtdiJtagDevice D))
      (selects : (cs : List (Bytes × FtdiJtagDevice D)) (c : Bytes × FtdiJtagDevice D)
        → select cs ≡ some c
        → Has c cs) where
    Has-choices :
        (labels : List Bytes) (devices : List (FtdiJtagDevice D)) (c : Bytes × FtdiJtagDevice D)
        → Has c (choices trim_end labels devices)
        → Has c.1 devices
    Has-choices [] devices c h = absurd h
    Has-choices (label ∷ labels) [] c h = absurd h
    Has-choices (label ∷ labels) (d ∷ devices) c (inl e) = inl (cc)
    Has-choices (label ∷ labels) (d ∷ devices) c (inr i) = inr (Has-choices labels devices c i)

    prompt-Taken :
        (a b : FtdiJtagDevice D) (others : List (FtdiJtagDevice D))
        → Taken (a ∷ b ∷ others) true (prompt_device_selection trim_end select (a ∷ b ∷ others))
    unfolding prompt_device_selection
    prompt-Taken a b others =
        elim (Option-cases
          (select (choices trim_end (device_labels trim_end (a ∷ b ∷ others)) (a ∷ b ∷ others)))) [
            | inl e ↦ rw (e, prompt_device_selection) (no_answer a b others)
            | inr (c, e) ↦
                rw (e, prompt_device_selection)
                  (picked a b others c.1 (
                    Has-choices (device_labels trim_end (a ∷ b ∷ others)) (a ∷ b ∷ others) c
                      (selects _ c e)))
          ]

    pub disambiguate-Taken :
        (devices : List (FtdiJtagDevice D)) (interactive : Bool)
        → Taken devices interactive
            (disambiguate_available_devices trim_end select devices interactive)
    unfolding disambiguate_available_devices
    disambiguate-Taken [] interactive = nothing_there interactive
    disambiguate-Taken (d ∷ []) interactive = only_one d interactive
    disambiguate-Taken (a ∷ b ∷ others) false = not_asked a b others
    disambiguate-Taken (a ∷ b ∷ others) true = prompt-Taken a b others
