-- ===== src/Macsec/Examples.antt =====
-- Runs of the model of macsec.c, and its theorems at concrete tables.
use netdevsim_dkms.Base.{◌≡◌, refl, inl, inr, true, some, List, [], ◌∷◌, arith, Status, success}
use netdevsim_dkms.Macsec.{Macsec, zero_rxsc, zero_secy, init, add_secy}
use netdevsim_dkms.Macsec.Calls.{
  Call, mdo_add_secy, mdo_del_secy, mdo_add_rxsc, mdo_del_rxsc, step, run,
}
use netdevsim_dkms.Macsec.Validity.{IsValid, init-IsValid}
use netdevsim_dkms.Macsec.Invariant.{step-IsValid, run-init-IsValid}

abbrev history : List Call
history =
    mdo_add_secy 7 ∷ mdo_add_rxsc 7 21 ∷ mdo_add_secy 9 ∷ mdo_del_rxsc 7 21 ∷ mdo_del_secy 7 ∷ []

-- One SecY with SCI 7 and one channel with SCI 21.
abbrev one_secy : Macsec
one_secy = record {
  secy =
      record { sci = 7; rxsc = record { sci = 21; used = true } ∷ []; rxsc_count = 1; used = true }
      ∷ zero_secy
      ∷ zero_secy
      ∷ [];
  secy_count = 1;
}

abbrev no_channel : Macsec
no_channel = record {
  secy =
      record { sci = 7; rxsc = zero_rxsc ∷ []; rxsc_count = 0; used = true }
      ∷ zero_secy
      ∷ zero_secy
      ∷ [];
  secy_count = 1;
}

one_secy-IsValid : IsValid one_secy
unfolding init
one_secy-IsValid = record {
  size = refl;
  counted = refl;
  entries = (
    record { size = refl; counted = refl; entries = (inl refl, tt); clear = inl refl },
    init-IsValid.entries.1,
  );
}

no_channel-IsValid : IsValid no_channel
unfolding init
no_channel-IsValid = record {
  size = refl;
  counted = refl;
  entries = (
    record { size = refl; counted = refl; entries = (inr refl, tt); clear = inl refl },
    init-IsValid.entries.1,
  );
}

runs : step init (mdo_add_secy 7) ≡ some (success, no_channel)
unfolding step init add_secy
runs = refl

step-IsValid_example :
    (r : Status) × (m' : Macsec) × (step one_secy (mdo_del_rxsc 7 21) ≡ some (r, m')) × IsValid m'
step-IsValid_example =
    step-IsValid one_secy (mdo_del_rxsc 7 21) (omega arith, omega arith) one_secy-IsValid

run-init-IsValid_example : (m' : Macsec) × (run init history ≡ some m') × IsValid m'
run-init-IsValid_example = run-init-IsValid history (omega arith)
