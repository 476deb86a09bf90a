-- ===== src/Macsec.antt =====
-- netdevsim/macsec.c: the MACsec offload tables of a simulated device, with the sizes and types of
-- netdevsim/netdevsim.h. A call of a `macsec_ops` handler is the SCIs that its context carries.
-- `none` is a write outside an array.
pub mod Calls
pub mod Validity
pub mod Invariant
pub mod Lookup
pub mod Channels
mod Examples
use netdevsim_dkms.Base.{
  ℕ, ◌+◌, ◌%◌, Bool, true, false, not, Option, none, some, List, Errno, enoent, enospc, ok, err,
  Status, success, ◌==◌, if◌then◌else◌, get_or, set, replicate, find_index,
}

abbrev pub max_secy_count : ℕ
max_secy_count = 3

abbrev pub max_rxsc_count : ℕ
max_rxsc_count = 1

-- `struct nsim_rxsc`
pub record Rxsc : Type 0 where
  pub sci : ℕ
  pub used : Bool

-- `struct nsim_secy`
pub record Secy : Type 0 where
  pub sci : ℕ
  pub rxsc : List Rxsc
  pub rxsc_count : ℕ
  pub used : Bool

-- `struct nsim_macsec`
pub record Macsec : Type 0 where
  pub secy : List Secy
  pub secy_count : ℕ

abbrev pub zero_rxsc : Rxsc
zero_rxsc = record { sci = 0; used = false }

abbrev pub zero_secy : Secy
zero_secy = record {
  sci = 0;
  rxsc = replicate max_rxsc_count zero_rxsc;
  rxsc_count = 0;
  used = false;
}

-- `nsim_macsec_init` clears the tables.
pub init : Macsec
init = record { secy = replicate max_secy_count zero_secy; secy_count = 0 }

-- `x++` and `x--` on a `u8`
abbrev pub inc_u8 : ℕ → ℕ
inc_u8 x = (x + 1) % 256

abbrev pub dec_u8 : ℕ → ℕ
dec_u8 x = (x + 255) % 256

abbrev pub secy_at : Macsec → ℕ → Secy
secy_at m i = get_or m.secy i zero_secy

abbrev pub rxsc_at : Secy → ℕ → Rxsc
rxsc_at s i = get_or s.rxsc i zero_rxsc

pub find_secy : Macsec → ℕ → Option ℕ
find_secy m sci = find_index (λ s. s.sci == sci) m.secy

pub find_rxsc : Secy → ℕ → Option ℕ
find_rxsc s sci = find_index (λ r. r.sci == sci) s.rxsc

pub add_secy : Macsec → ℕ → Status × Macsec
add_secy m sci =
    if m.secy_count == max_secy_count
    then (err enospc, m)
    else elim (find_index (λ s. not s.used) m.secy) [
      | none ↦ (err enospc, m)
      | some i ↦ (
        success,
        record {
          secy = set m.secy i (record (secy_at m i) { used = true; rxsc_count = 0; sci = sci });
          secy_count = inc_u8 m.secy_count;
        },
      )
    ]

pub upd_secy : Macsec → ℕ → Status
upd_secy m sci = elim (find_secy m sci) [ none ↦ err enoent | some i ↦ success ]

pub del_secy : Macsec → ℕ → Status × Macsec
del_secy m sci = elim (find_secy m sci) [
  | none ↦ (err enoent, m)
  | some i ↦ (success, record { secy = set m.secy i zero_secy; secy_count = dec_u8 m.secy_count })
]

-- The loop that looks for a free entry ends past the array if there is none, and the code goes on
-- to write there.
add_rxsc_at : Macsec → ℕ → ℕ → Option ℕ → Option (Status × Macsec)
add_rxsc_at m i rx_sci none = none
add_rxsc_at m i rx_sci (some j) =
    let s = secy_at m i in
    some (
      success,
      record m {
        secy = set m.secy i (record s {
          rxsc = set s.rxsc j (record { sci = rx_sci; used = true });
          rxsc_count = inc_u8 s.rxsc_count;
        });
      },
    )

pub add_rxsc : Macsec → ℕ → ℕ → Option (Status × Macsec)
unfolding add_rxsc_at
add_rxsc m sci rx_sci = elim (find_secy m sci) [
  | none ↦ some (err enoent, m)
  | some i ↦
      if (secy_at m i).rxsc_count == max_rxsc_count
      then some (err enospc, m)
      else add_rxsc_at m i rx_sci (find_index (λ r. not r.used) (secy_at m i).rxsc)
]

-- The two searches that the other handlers of an RXSC begin with.
pub locate : Macsec → ℕ → ℕ → Option (ℕ × ℕ)
locate m sci rx_sci = elim (find_secy m sci) [
  | none ↦ none
  | some i ↦ elim (find_rxsc (secy_at m i) rx_sci) [ none ↦ none | some j ↦ some (i, j) ]
]

pub upd_rxsc : Macsec → ℕ → ℕ → Status
upd_rxsc m sci rx_sci = elim (locate m sci rx_sci) [ none ↦ err enoent | some r ↦ success ]

pub del_rxsc : Macsec → ℕ → ℕ → Status × Macsec
del_rxsc m sci rx_sci = elim (locate m sci rx_sci) [
  | none ↦ (err enoent, m)
  | some (i, j) ↦
      let s = secy_at m i in
      (
        success,
        record m {
          secy =
              set m.secy i
                (record s { rxsc = set s.rxsc j zero_rxsc; rxsc_count = dec_u8 s.rxsc_count });
        },
      )
]

-- The handlers of secure associations only check that their channel is there.
pub add_rxsa : Macsec → ℕ → ℕ → Status
add_rxsa m sci rx_sci = elim (locate m sci rx_sci) [ none ↦ err enoent | some r ↦ success ]

pub upd_rxsa : Macsec → ℕ → ℕ → Status
upd_rxsa m sci rx_sci = elim (locate m sci rx_sci) [ none ↦ err enoent | some r ↦ success ]

pub del_rxsa : Macsec → ℕ → ℕ → Status
del_rxsa m sci rx_sci = elim (locate m sci rx_sci) [ none ↦ err enoent | some r ↦ success ]

pub add_txsa : Macsec → ℕ → Status
add_txsa m sci = elim (find_secy m sci) [ none ↦ err enoent | some i ↦ success ]

pub upd_txsa : Macsec → ℕ → Status
upd_txsa m sci = elim (find_secy m sci) [ none ↦ err enoent | some i ↦ success ]

pub del_txsa : Macsec → ℕ → Status
del_txsa m sci = elim (find_secy m sci) [ none ↦ err enoent | some i ↦ success ]
