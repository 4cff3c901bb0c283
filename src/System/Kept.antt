-- ===== src/System/Kept.antt =====
-- The bytes of the processes of src/os.c, over the steps of one of them and a new one.
use mathlib.Core.Path.{subst}
use operating_system_assignm.Prelude.{
  ℕ, ◌+◌, ◌*◌, ◌<◌, ◌≡◌, ◌≢◌, refl, ap, sym, ◌∙◌, arith, Option, some, List, [],
}
use operating_system_assignm.Pte.{paging_pgn, paging_offst}
use operating_system_assignm.Memphy.{Memphy}
use operating_system_assignm.Paging.{Machine}
use operating_system_assignm.Paging.Place.{Place, unmapped, in_ram, in_swap, byte_at, contents}
use operating_system_assignm.Vm.Symbols.{Inside, addr_of, byte_of}
use operating_system_assignm.Cpu.{Inst, Process}
use operating_system_assignm.Cpu.Beside.{Beside}
use operating_system_assignm.System.{Program, System, with_process, load_process}
use operating_system_assignm.System.Frames.{foreign-some}
use operating_system_assignm.System.Invariant.{
  held, foreign_ram, foreign_swp, machine, IsSystem, mapped_bound, procs-here, procs-there,
}
use operating_system_assignm.System.Loading.{procs-before}

-- The bytes of a place are the same if the frame is.
byte_at-frames :
    (m : Machine) (ram swp : Memphy) (pl : Place) (o : ℕ)
    → o < 256
    → ((f : ℕ) → pl ≡ in_ram f → ram.storage (f * 256 + o) ≡ m.mram.storage (f * 256 + o))
    → ((f : ℕ) → pl ≡ in_swap f → swp.storage (f * 256 + o) ≡ m.mswp.storage (f * 256 + o))
    → byte_at ram swp pl o ≡ byte_at m.mram m.mswp pl o
byte_at-frames m ram swp unmapped o l r w = refl
byte_at-frames m ram swp (in_ram f) o l r w = ap some (r f refl)
byte_at-frames m ram swp (in_swap f) o l r w = ap some (w f refl)

module _ (s : System) (v : IsSystem s) (p : ℕ) (h : p < s.count) (q : Process)
    (beside : Beside (foreign_ram s p) (foreign_swp s p) (machine s p) q.machine) where
  -- No byte of another process has changed.
  other_contents :
      (r pgn o : ℕ)
      → r < s.count
      → r ≢ p
      → o < 256
      → contents (record (machine s r) { mram = q.machine.mram; mswp = q.machine.mswp }) pgn o
        ≡ contents (machine s r) pgn o
  unfolding contents
  other_contents r pgn o l ne small =
      byte_at-frames (machine s r) q.machine.mram q.machine.mswp (held s r pgn) o small
        (λ f e.
          beside.0 f o
            (foreign-some in_ram s.count (held s) p r pgn f l ne
              (mapped_bound (machine s r) pgn (v.spaces r l) (λ z. ground (arith, sym e ∙ z))) e)
            small)
        (λ f e.
          beside.1 f o
            (foreign-some in_swap s.count (held s) p r pgn f l ne
              (mapped_bound (machine s r) pgn (v.spaces r l) (λ z. ground (arith, sym e ∙ z))) e)
            small)

  pub other_kept :
      (r x o : ℕ)
      → r < s.count
      → r ≢ p
      → Inside (s.procs r).mm x o
      → Inside ((with_process s p q).procs r).mm x o
        × (byte_of (machine (with_process s p q) r) x o ≡ byte_of (machine s r) x o)
  unfolding contents
  other_kept r x o l ne i =
      subst
        (λ (pr : Program).
          Inside pr.mm x o
          × (byte_of
                (record {
                  mm = pr.mm;
                  mram = q.machine.mram;
                  mswp = q.machine.mswp;
                  junk = q.machine.junk;
                })
                x o
              ≡ byte_of (machine s r) x o))
        (sym (procs-there s p q r ne))
        (
          i,
          other_contents r (paging_pgn (addr_of (s.procs r).mm x o))
              (paging_offst (addr_of (s.procs r).mm x o)) l ne (omega arith),
        )

pub loaded_kept :
    (s : System) (text : List Inst) (v : IsSystem s) (p x o : ℕ)
    → p < s.count
    → Inside (s.procs p).mm x o
    → Inside ((load_process s text []).procs p).mm x o
      × (byte_of (machine (load_process s text []) p) x o ≡ byte_of (machine s p) x o)
unfolding load_process
loaded_kept s text v p x o l i =
    subst
      (λ (pr : Program).
        Inside pr.mm x o
        × (byte_of (record { mm = pr.mm; mram = s.mram; mswp = s.mswp; junk = s.junk }) x o
            ≡ byte_of (machine s p) x o))
      (sym (procs-before s text v p l)) (i, refl)

pub own_kept :
    (s : System) (p : ℕ) (q : Process) (x o : ℕ) (b : Option ℕ)
    → Inside q.machine.mm x o × (byte_of q.machine x o ≡ b)
    → Inside ((with_process s p q).procs p).mm x o
      × (byte_of (machine (with_process s p q) p) x o ≡ b)
own_kept s p q x o b h =
    subst
      (λ (pr : Program).
        Inside pr.mm x o
        × (byte_of
              (record {
                mm = pr.mm;
                mram = q.machine.mram;
                mswp = q.machine.mswp;
                junk = q.machine.junk;
              })
              x o
            ≡ b))
      (sym (procs-here s p q)) h
