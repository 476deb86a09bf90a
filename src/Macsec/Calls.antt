-- ===== src/Macsec/Calls.antt =====
-- The calls that the MACsec core makes of a device, through `nsim_macsec_ops`.
use netdevsim_dkms.Base.{ℕ, Option, none, some, List, [], ◌∷◌, Status, ◌≢◌}
use netdevsim_dkms.Macsec.{
  Macsec, add_secy, upd_secy, del_secy, add_rxsc, upd_rxsc, del_rxsc, add_rxsa, upd_rxsa, del_rxsa,
  add_txsa, upd_txsa, del_txsa,
}

-- `struct macsec_ops`: each handler with the SCI of the SecY, and that of the RXSC.
pub data Call : Type 0 where
  mdo_add_secy mdo_upd_secy mdo_del_secy : ℕ → Call
  mdo_add_rxsc mdo_upd_rxsc mdo_del_rxsc : ℕ → ℕ → Call
  mdo_add_rxsa mdo_upd_rxsa mdo_del_rxsa : ℕ → ℕ → Call
  mdo_add_txsa mdo_upd_txsa mdo_del_txsa : ℕ → Call

unfoldable pub step : Macsec → Call → Option (Status × Macsec)
step m (mdo_add_secy s) = some (add_secy m s)
step m (mdo_upd_secy s) = some (upd_secy m s, m)
step m (mdo_del_secy s) = some (del_secy m s)
step m (mdo_add_rxsc s r) = add_rxsc m s r
step m (mdo_upd_rxsc s r) = some (upd_rxsc m s r, m)
step m (mdo_del_rxsc s r) = some (del_rxsc m s r)
step m (mdo_add_rxsa s r) = some (add_rxsa m s r, m)
step m (mdo_upd_rxsa s r) = some (upd_rxsa m s r, m)
step m (mdo_del_rxsa s r) = some (del_rxsa m s r, m)
step m (mdo_add_txsa s) = some (add_txsa m s, m)
step m (mdo_upd_txsa s) = some (upd_txsa m s, m)
step m (mdo_del_txsa s) = some (del_txsa m s, m)

-- A history of calls; `none` as soon as one of them writes outside an array.
unfoldable pub run : Macsec → List Call → Option Macsec
run m [] = some m
run m (c ∷ cs) = elim (step m c) [ none ↦ none | some (r, m') ↦ run m' cs ]

-- No call names the SCI 0.
abbrev pub HasSci : Call → Type 0
HasSci (mdo_add_secy s) = s ≢ 0
HasSci (mdo_upd_secy s) = s ≢ 0
HasSci (mdo_del_secy s) = s ≢ 0
HasSci (mdo_add_rxsc s r) = (s ≢ 0) × (r ≢ 0)
HasSci (mdo_upd_rxsc s r) = (s ≢ 0) × (r ≢ 0)
HasSci (mdo_del_rxsc s r) = (s ≢ 0) × (r ≢ 0)
HasSci (mdo_add_rxsa s r) = (s ≢ 0) × (r ≢ 0)
HasSci (mdo_upd_rxsa s r) = (s ≢ 0) × (r ≢ 0)
HasSci (mdo_del_rxsa s r) = (s ≢ 0) × (r ≢ 0)
HasSci (mdo_add_txsa s) = s ≢ 0
HasSci (mdo_upd_txsa s) = s ≢ 0
HasSci (mdo_del_txsa s) = s ≢ 0
