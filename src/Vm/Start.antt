-- ===== src/Vm/Start.antt =====
-- `init_mm` of src/mm.c, and the memory of a new process.
use operating_system_assignm.Prelude.{
  ℕ, ◌/◌, ◌^◌, ◌<◌, ◌≡◌, refl, Bool, true, false, arith, has, [],
}
use operating_system_assignm.Memphy.{Memphy}
use operating_system_assignm.Mm.{init_mm, init_vm_rg}
use operating_system_assignm.Totals.{total-zero, total}
use operating_system_assignm.Paging.Place.{place}
use operating_system_assignm.Paging.Valid.{IsDevice}
use operating_system_assignm.Vm.{paging_max_symtbl_sz}
use operating_system_assignm.Vm.Owners.{symbol_owner}
use operating_system_assignm.Vm.Space.{IsSpace}

-- With a free list that malloc has cleared, init_mm makes a descriptor that is in order on any two
-- devices in order, in which the frames of other processes lie and are not free.
pub init_mm-IsSpace :
    (foreign_ram foreign_swp : ℕ → Bool) (ram swp : Memphy) (junk : ℕ)
    → IsDevice 1024 ram
    → IsDevice (2 ^ 21) swp
    → ((f : ℕ) → foreign_ram f ≡ true → has f ram.free_fp_list ≡ false)
    → ((f : ℕ) → foreign_swp f ≡ true → has f swp.free_fp_list ≡ false)
    → ((f : ℕ) → foreign_ram f ≡ true → f < ram.maxsz / 256)
    → ((f : ℕ) → foreign_swp f ≡ true → f < swp.maxsz / 256)
    → IsSpace foreign_ram foreign_swp
        (record { mm = init_mm []; mram = ram; mswp = swp; junk = junk })
unfolding init_mm init_vm_rg place
init_mm-IsSpace foreign_ram foreign_swp ram swp junk r s apart_ram apart_swp reach_ram reach_swp =
    record {
      valid = record {
        queue = record { counted = refl; distinct = tt; topped = λ p h. absurd (ground arith) };
        ram = r;
        swp = s;
        queued = λ p. refl;
        frames = record {
          inside = λ p f h. absurd (ground arith);
          taken = λ p f h. absurd (ground arith);
          local = λ p f h. absurd (ground arith);
          single = λ p q f h k. absurd (ground arith);
          apart = apart_ram;
          reach = reach_ram;
        };
        slots = record {
          inside = λ p f h. absurd (ground arith);
          taken = λ p f h. absurd (ground arith);
          local = λ p f h. absurd (ground arith);
          single = λ p q f h k. absurd (ground arith);
          apart = apart_swp;
          reach = reach_swp;
        };
      };
      area = record {
        disjoint = λ a. ground (arith, no_symbol a);
        bounded = λ a h. ground (arith, no_symbol a);
        starts = refl;
        room = omega arith;
        aligned = refl;
        on_bus = omega arith;
      };
      backed = λ q h. absurd (omega arith);
      beyond = λ q h. refl;
    }
  where
    no_symbol :
        (a : ℕ)
        → total
            (symbol_owner a)
            paging_max_symtbl_sz
            (λ _. record { rg_start = 0; rg_end = 0; valid = false })
          ≡ 0
    no_symbol a = total-zero (symbol_owner a) paging_max_symtbl_sz _ (λ i h. refl)
