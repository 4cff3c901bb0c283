-- ===== src/System/Loading.antt =====
-- A new process beside the others, and the start.
use mathlib.Core.Path.{subst}
use operating_system_assignm.Prelude.{
  ℕ, ◌*◌, ◌^◌, ◌≤◌, ◌<◌, ◌≡◌, ◌≢◌, refl, ap, sym, ◌∙◌, inl, inr, ◌==◌, arith, Bool-cases, ==→eq,
  ==-refl, List, [],
}
use operating_system_assignm.Pte.{paging_max_pgn}
use operating_system_assignm.Memphy.{Memphy}
use operating_system_assignm.Memphy.Frames.{init_memphy-IsFormatted}
use operating_system_assignm.Mm.{init_mm}
use operating_system_assignm.Paging.Place.{Place, unmapped, in_ram, in_swap, place, place-zero}
use operating_system_assignm.Vm.Space.{IsSpace}
use operating_system_assignm.Vm.Start.{init_mm-IsSpace}
use operating_system_assignm.Cpu.{Inst}
use operating_system_assignm.System.{Program, System, load_process, boot_memories}
use operating_system_assignm.System.Owners.{old-Holds, new_apart}
use operating_system_assignm.System.Invariant.{
  held, foreign_ram, foreign_swp, machine, IsSystem, mapped_bound, moved-IsSpace,
}

module _ (s : System) (text : List Inst) (v : IsSystem s) where
  abbrev loaded : System
  loaded = load_process s text []

  pub procs-before : (r : ℕ) → r < s.count → loaded.procs r ≡ s.procs r
  unfolding load_process
  procs-before r l = elim (Bool-cases (r == s.count)) [
    | inl last ↦ absurd (ground arith)
    | inr before ↦ rw before refl
  ]

  procs-last : loaded.procs s.count ≡ record { text = text; pc = 0; mm = init_mm [] }
  unfolding load_process
  procs-last = rw (==-refl s.count) refl

  pages_before : (r : ℕ) → r < s.count → held loaded r ≡ held s r
  pages_before r l = ap {B = ℕ → Place} (λ (pr : Program) g. place (pr.mm.pgd g)) (procs-before r l)

  pages_last : (g : ℕ) → held loaded s.count g ≡ unmapped
  unfolding init_mm
  pages_last g = ap (λ (pr : Program). place (pr.mm.pgd g)) procs-last ∙ place-zero

  pages_bound :
      (at : ℕ → Place)
      → ((k : ℕ) → at k ≢ unmapped)
      → (r g k : ℕ) → r < s.count
      → held s r g ≡ at k
      → g < paging_max_pgn
  pages_bound at ne r g k l e = mapped_bound (machine s r) g (v.spaces r l) (λ z. ne k (sym e ∙ z))

  ram_mapped : (k : ℕ) → in_ram k ≢ unmapped
  ram_mapped k e = ground (arith, e)

  swp_mapped : (k : ℕ) → in_swap k ≢ unmapped
  swp_mapped k e = ground (arith, e)

  before-IsSpace :
      (r : ℕ)
      → r < s.count
      → IsSpace (foreign_ram loaded r) (foreign_swp loaded r) (machine loaded r)
  unfolding load_process
  before-IsSpace r l =
      subst
        (λ (pr : Program).
          IsSpace (foreign_ram loaded r) (foreign_swp loaded r)
            (record { mm = pr.mm; mram = s.mram; mswp = s.mswp; junk = s.junk }))
        (sym (procs-before r l))
        (moved-IsSpace (machine s r) s.mram s.mswp s.junk (v.spaces r l) v.ram v.swp
          (old-Holds in_ram s.count (held s) (held loaded) s.mram ram_mapped pages_before pages_last
            (pages_bound in_ram ram_mapped) (λ q k. (v.spaces q k).valid.frames) r l)
          (old-Holds in_swap s.count (held s) (held loaded) s.mswp swp_mapped pages_before
            pages_last (pages_bound in_swap swp_mapped) (λ q k. (v.spaces q k).valid.slots) r l))

  last-IsSpace :
      IsSpace (foreign_ram loaded s.count) (foreign_swp loaded s.count) (machine loaded s.count)
  unfolding load_process
  last-IsSpace =
      let ram =
        new_apart in_ram s.count (held s) (held loaded) s.mram ram_mapped pages_before pages_last
          (pages_bound in_ram ram_mapped) (λ q k. (v.spaces q k).valid.frames) in
      let swp =
        new_apart in_swap s.count (held s) (held loaded) s.mswp swp_mapped pages_before pages_last
          (pages_bound in_swap swp_mapped) (λ q k. (v.spaces q k).valid.slots) in
      subst
        (λ (pr : Program).
          IsSpace (foreign_ram loaded s.count) (foreign_swp loaded s.count)
            (record { mm = pr.mm; mram = s.mram; mswp = s.mswp; junk = s.junk }))
        (sym procs-last)
        (init_mm-IsSpace (foreign_ram loaded s.count) (foreign_swp loaded s.count) s.mram s.mswp
          s.junk v.ram v.swp (λ f k. (ram f k).0) (λ f k. (swp f k).0) (λ f k. (ram f k).1)
          (λ f k. (swp f k).1))

  pub load_process-IsSystem : IsSystem loaded
  unfolding load_process
  load_process-IsSystem = record {
    ram = v.ram;
    swp = v.swp;
    spaces = λ r l. elim (Bool-cases (r == s.count)) [
      | inl last ↦
          subst (λ k. IsSpace (foreign_ram loaded k) (foreign_swp loaded k) (machine loaded k))
            (sym (==→eq r s.count last)) last-IsSpace
      | inr before ↦ before-IsSpace r (ground arith)
    ];
  }

pub boot_memories-IsSystem :
    (ram swp : Memphy) (memramsz memswpsz : ℕ) (ram_uninit swp_uninit : List ℕ)
    (procs : ℕ → Program) (junk : ℕ)
    → 256 ≤ memramsz
    → memramsz ≤ 1024 * 256
    → 256 ≤ memswpsz
    → memswpsz ≤ 2 ^ 21 * 256
    → (memramsz < 512 → ram_uninit ≡ [])
    → (memswpsz < 512 → swp_uninit ≡ [])
    → IsSystem (boot_memories ram swp memramsz memswpsz ram_uninit swp_uninit procs junk)
unfolding boot_memories
boot_memories-IsSystem ram swp memramsz memswpsz ram_uninit swp_uninit procs junk a b c d e f =
    let r = init_memphy-IsFormatted ram memramsz 1 ram_uninit a e in
    let w = init_memphy-IsFormatted swp memswpsz 1 swp_uninit c f in
    record {
      ram = record { formatted = r.0; random = r.2; small = rw (r.1) b };
      swp = record { formatted = w.0; random = w.2; small = rw (w.1) d };
      spaces = λ p h. absurd (omega arith);
    }
