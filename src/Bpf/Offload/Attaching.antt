-- ===== src/Bpf/Offload/Attaching.antt =====
-- What `nsim_bpf_offload` of netdevsim/bpf.c and the operations on bound programs do to the marks of the
-- programs that are loaded.
use netdevsim_dkms.Base.{
  ◌≡◌, refl, Bool, true, false, not, ◌&&◌, ◌||◌, Option, none, some, List, [], ◌∷◌, ◌++◌, arith,
}
use netdevsim_dkms.Bpf.Offload.{
  Prog, is_same, is_prog, ProgState, BoundProg, Netdevsim, mark_loaded, prog_set_loaded, id_of,
  bpf_offload, mark_xlated, loaded_in, unlink_prog,
}

-- Whether a program is the one attached, and offloaded.
abbrev pub is_running : Option Prog → Prog → Bool
is_running none q = false
is_running (some p) q = p.is_offloaded && is_same p q

-- The programs marked as loaded pass a test.
unfoldable pub all_backed : (Prog → Bool) → List BoundProg → Bool
all_backed f [] = true
all_backed f (b ∷ bs) = (not b.is_loaded || f b.prog) && all_backed f bs

-- A program runs on an interface where `o` is attached, or passes a test.
abbrev pub or_running : Option Prog → (Prog → Bool) → Prog → Bool
or_running o f q = is_running o q || f q

unloaded-backed :
    (o : Option Prog) (f : Prog → Bool) (bs : List BoundProg)
    → all_backed (or_running o f) bs ≡ true
    → all_backed f (prog_set_loaded o false bs) ≡ true
unfolding all_backed mark_loaded
unloaded-backed none f bs h = h
unloaded-backed (some p) f [] h = ground arith
unloaded-backed (some p) f (b ∷ bs) h = ground (arith, h, unloaded-backed (some p) f bs)

loaded-backed :
    (o : Option Prog) (f : Prog → Bool) (bs : List BoundProg)
    → all_backed f bs ≡ true
    → all_backed (or_running o f) (prog_set_loaded o true bs) ≡ true
unfolding all_backed mark_loaded
loaded-backed none f bs h = h
loaded-backed (some p) f [] h = ground arith
loaded-backed (some p) f (b ∷ bs) h = ground (arith, h, loaded-backed (some p) f bs)

pub xlated-backed :
    (f : Prog → Bool) (p : Prog) (bs : List BoundProg)
    → all_backed f (mark_xlated p bs) ≡ all_backed f bs
unfolding all_backed mark_xlated
xlated-backed f p [] = refl
xlated-backed f p (b ∷ bs) = ground (arith, xlated-backed f p bs)

pub append-backed :
    (f : Prog → Bool) (p : Prog) (state : ProgState) (bs : List BoundProg)
    → all_backed f bs ≡ true
    → all_backed f (bs ++ record { prog = p; state = state; is_loaded = false } ∷ []) ≡ true
unfolding all_backed
append-backed f p state [] h = refl
append-backed f p state (b ∷ bs) h = ground (arith, h, append-backed f p state bs)

pub unlink-backed :
    (f : Prog → Bool) (p : Prog) (bs : List BoundProg)
    → all_backed f bs ≡ true
    → all_backed f (unlink_prog p bs) ≡ true
unfolding all_backed unlink_prog
unlink-backed f p [] h = h
unlink-backed f p (b ∷ bs) h = ground (arith, h, unlink-backed f p bs)

-- A program that does not run anywhere is not marked.
pub loaded_in-unused :
    (f : Prog → Bool) (p : Prog) (bs : List BoundProg)
    → ((q : Prog) → is_same p q ≡ true → f q ≡ false)
    → all_backed f bs ≡ true
    → loaded_in p bs ≡ false
unfolding all_backed loaded_in
loaded_in-unused f p [] unused h = refl
loaded_in-unused f p (b ∷ bs) unused h =
    ground (arith, h, unused b.prog, loaded_in-unused f p bs unused)

pub is_same_trans : (p q r : Prog) → is_same p q ≡ false → is_same q r ≡ true → is_same p r ≡ false
is_same_trans p q r h k = ground (arith, h, k)

-- The state of an interface in which no WARN has fired, the number is that of the program attached, and
-- a program marked as loaded is attached there or passes the test of those that run elsewhere.
pub record IsRight (elsewhere : Prog → Bool) (s : Netdevsim) : Type 0 where
  pub quiet : s.warned ≡ false
  pub number : s.bpf_offloaded_id ≡ id_of s.bpf_offloaded
  pub loaded : all_backed (or_running s.bpf_offloaded elsewhere) s.bpf_bound_progs ≡ true

pub bpf_offload-IsRight :
    (f : Prog → Bool) (prog : Option Prog) (s : Netdevsim)
    → IsRight f s
    → IsRight f (bpf_offload prog (is_prog s.bpf_offloaded) s).1
unfolding bpf_offload
bpf_offload-IsRight f prog s r =
    let unloaded = unloaded-backed s.bpf_offloaded f s.bpf_bound_progs r.loaded in
    record {
      quiet = ground (arith, r.quiet);
      number = refl;
      loaded =
          loaded-backed prog f (prog_set_loaded s.bpf_offloaded false s.bpf_bound_progs) unloaded;
    }
