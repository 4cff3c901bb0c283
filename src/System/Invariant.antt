-- ===== src/System/Invariant.antt =====
-- The memory of every process in order, on memories that all of them share.
use mathlib.Core.Path.{subst}
use operating_system_assignm.Prelude.{
  ℕ, ◌/◌, ◌^◌, ◌<◌, ◌≡◌, ◌≢◌, refl, ap, sym, ◌∙◌, inl, inr, Bool, false, ◌==◌, leb, arith,
  Bool-cases, ==→eq, ==-refl,
}
use operating_system_assignm.Pte.{paging_max_pgn}
use operating_system_assignm.Memphy.{Memphy}
use operating_system_assignm.Paging.{Machine}
use operating_system_assignm.Paging.Place.{Place, unmapped, in_ram, in_swap, place, where_is}
use operating_system_assignm.Paging.Valid.{IsDevice, Holds}
use operating_system_assignm.Vm.Space.{IsSpace}
use operating_system_assignm.Cpu.{Process}
use operating_system_assignm.System.{Program, System, process, with_process}
use operating_system_assignm.System.Frames.{foreign}
use operating_system_assignm.System.Owners.{HoldsAll, changed-HoldsAll}

abbrev pub held : System → ℕ → ℕ → Place
held s q g = place ((s.procs q).mm.pgd g)

abbrev pub foreign_ram : System → ℕ → ℕ → Bool
foreign_ram s p = foreign in_ram s.count (held s) p

abbrev pub foreign_swp : System → ℕ → ℕ → Bool
foreign_swp s p = foreign in_swap s.count (held s) p

abbrev pub machine : System → ℕ → Machine
machine s p = (process s p).machine

-- The devices are in order, and the memory of each process is, beside the frames of the others.
pub record IsSystem (s : System) : Type 0 where
  pub ram : IsDevice 1024 s.mram
  pub swp : IsDevice (2 ^ 21) s.mswp
  pub spaces : (p : ℕ) → p < s.count → IsSpace (foreign_ram s p) (foreign_swp s p) (machine s p)

-- The pages that are mapped lie on the bus.
pub mapped_bound :
    {fr fs : ℕ → Bool} (m : Machine) (g : ℕ)
    → IsSpace fr fs m
    → where_is m g ≢ unmapped
    → g < paging_max_pgn
mapped_bound m g v ne = elim (Bool-cases (leb (m.mm.mmap.vm_end / 256) g)) [
  | inl past ↦ absurd (ne (v.beyond g (ground arith)))
  | inr below ↦ omega (arith, v.area.on_bus, the_below below)
]
  where
    the_below : leb (m.mm.mmap.vm_end / 256) g ≡ false → g < m.mm.mmap.vm_end / 256
    the_below b = ground arith

-- The same process on other devices, beside other frames.
pub moved-IsSpace :
    {fr fs fr' fs' : ℕ → Bool} (m : Machine) (ram swp : Memphy) (junk : ℕ)
    → IsSpace fr fs m
    → IsDevice 1024 ram
    → IsDevice (2 ^ 21) swp
    → Holds (where_is m) in_ram ram fr'
    → Holds (where_is m) in_swap swp fs'
    → IsSpace fr' fs' (record { mm = m.mm; mram = ram; mswp = swp; junk = junk })
moved-IsSpace m ram swp junk v r s hr hs = record {
  valid = record {
    queue = v.valid.queue;
    ram = r;
    swp = s;
    queued = v.valid.queued;
    frames = record {
      inside = hr.inside;
      taken = hr.taken;
      local = hr.local;
      single = hr.single;
      apart = hr.apart;
      reach = hr.reach;
    };
    slots = record {
      inside = hs.inside;
      taken = hs.taken;
      local = hs.local;
      single = hs.single;
      apart = hs.apart;
      reach = hs.reach;
    };
  };
  area = v.area;
  backed = v.backed;
  beyond = v.beyond;
}

abbrev pub program_of : Process → Program
program_of q = record { text = q.text; pc = q.pc; mm = q.machine.mm }

pub procs-here : (s : System) (p : ℕ) (q : Process) → (with_process s p q).procs p ≡ program_of q
procs-here s p q = rw (==-refl p) refl

pub procs-there :
    (s : System) (p : ℕ) (q : Process) (r : ℕ) → r ≢ p → (with_process s p q).procs r ≡ s.procs r
procs-there s p q r ne = elim (Bool-cases (r == p)) [
  | inl same ↦ absurd (ne (==→eq r p same))
  | inr other ↦ rw other refl
]

module _ (s : System) (v : IsSystem s) (p : ℕ) (h : p < s.count) (q : Process)
    (new : IsSpace (foreign_ram s p) (foreign_swp s p) q.machine) where
  abbrev after : System
  after = with_process s p q

  -- A process after the step: that which has run, or another on the new devices.
  by_program :
      (P : ℕ → Program → Type 0)
      → P p (program_of q)
      → ((r : ℕ) → r < s.count → r ≢ p → P r (s.procs r))
      → (r : ℕ) → r < s.count
      → P r (after.procs r)
  by_program P here there r l = elim (Bool-cases (r == p)) [
    | inl same ↦
        subst (λ k. P k (after.procs k)) (sym (==→eq r p same))
          (subst (P p) (sym (procs-here s p q)) here)
    | inr other ↦
        let ne : r ≢ p = λ z. ground (arith, z) in
        subst (P r) (sym (procs-there s p q r ne)) (there r l ne)
  ]

  bound_at :
      (at : ℕ → Place)
      → ((k : ℕ) → at k ≢ unmapped)
      → (r g k : ℕ) → r < s.count
      → held after r g ≡ at k
      → g < paging_max_pgn
  bound_at at ne r g k l =
      by_program (λ _ pr. place (pr.mm.pgd g) ≡ at k → g < paging_max_pgn)
        (λ e. mapped_bound q.machine g new (λ z. ne k (sym e ∙ z)))
        (λ t lt nt e. mapped_bound (machine s t) g (v.spaces t lt) (λ z. ne k (sym e ∙ z))) r l

  pages_there : (r : ℕ) → r ≢ p → held after r ≡ held s r
  pages_there r ne =
      ap {B = ℕ → Place} (λ (pr : Program) g. place (pr.mm.pgd g)) (procs-there s p q r ne)

  pages_here : held after p ≡ where_is q.machine
  pages_here = ap {B = ℕ → Place} (λ (pr : Program) g. place (pr.mm.pgd g)) (procs-here s p q)

  frames_all :
      (at : ℕ → Place) (mp mp' : Memphy)
      → ((k : ℕ) → at k ≢ unmapped)
      → HoldsAll at s.count (held s) mp
      → Holds (where_is q.machine) at mp' (foreign at s.count (held s) p)
      → HoldsAll at s.count (held after) mp'
  frames_all at mp mp' ne all now =
      changed-HoldsAll at s.count p (held s) (held after) mp mp' h pages_there (bound_at at ne) all
        (subst (λ t. Holds t at mp' (foreign at s.count (held s) p)) (sym pages_here) now)

  -- Process `p` has gone on from its memory to one in order beside the same frames.
  pub with_process-IsSystem : IsSystem after
  with_process-IsSystem = record {
    ram = new.valid.ram;
    swp = new.valid.swp;
    spaces = λ r l. spaces r l (ram_all r l) (swp_all r l);
  }
    where
      ram_all : HoldsAll in_ram s.count (held after) q.machine.mram
      ram_all =
          frames_all in_ram s.mram q.machine.mram (λ k e. ground (arith, e))
            (λ r l. (v.spaces r l).valid.frames) new.valid.frames

      swp_all : HoldsAll in_swap s.count (held after) q.machine.mswp
      swp_all =
          frames_all in_swap s.mswp q.machine.mswp (λ k e. ground (arith, e))
            (λ r l. (v.spaces r l).valid.slots) new.valid.slots

      spaces :
          (r : ℕ)
          → r < s.count
          → Holds (held after r) in_ram q.machine.mram (foreign_ram after r)
          → Holds (held after r) in_swap q.machine.mswp (foreign_swp after r)
          → IsSpace (foreign_ram after r) (foreign_swp after r) (machine after r)
      spaces r l =
          by_program
            (λ k pr.
              Holds (λ g. place (pr.mm.pgd g)) in_ram q.machine.mram (foreign_ram after k)
              → Holds (λ g. place (pr.mm.pgd g)) in_swap q.machine.mswp (foreign_swp after k)
              → IsSpace (foreign_ram after k) (foreign_swp after k) (record {
                mm = pr.mm;
                mram = q.machine.mram;
                mswp = q.machine.mswp;
                junk = q.machine.junk;
              }))
            (λ a b.
              moved-IsSpace q.machine q.machine.mram q.machine.mswp q.machine.junk new new.valid.ram
                new.valid.swp a b)
            (λ t lt nt a b.
              moved-IsSpace (machine s t) q.machine.mram q.machine.mswp q.machine.junk
                (v.spaces t lt) new.valid.ram new.valid.swp a b)
            r l
