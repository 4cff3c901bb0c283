-- ===== src/Memphy/Copy.antt =====
-- `__swap_cp_page` of src/mm.c and MEMPHY_clean_frame, cell by cell.
use mathlib.Core.Path.{fun_ext}
use operating_system_assignm.Prelude.{
  ℕ, zero, suc, ◌+◌, ◌-◌, ◌*◌, ◌/◌, ◌%◌, ◌≡◌, ap, ◌∙◌, true, arith, ltb, leb, ◌==◌, ◌&&◌, update,
  if◌then◌else◌,
}
use operating_system_assignm.Memphy.{Memphy, read, write, swap_cells, copy_page, clean_frame}
use operating_system_assignm.Memphy.Cells.{read-random, write-random}

-- `dst` after the cells `c`, …, `c + n - 1` of frame `s` have been copied to frame `d`.
abbrev span : ℕ → ℕ → Memphy → ℕ → Memphy → ℕ → Memphy
span c n src s dst d = record dst {
  storage = λ a.
      if leb (d * 256 + c) a && ltb a (d * 256 + c + n)
      then src.storage (s * 256 + (a - d * 256))
      else dst.storage a;
}

swap_cells_lem :
    (g n c : ℕ) (src : Memphy) (s : ℕ) (dst : Memphy) (d : ℕ)
    → src.rdmflg ≡ true
    → dst.rdmflg ≡ true
    → swap_cells g n c src s dst d ≡ (src, span c n src s dst d)
unfolding swap_cells read write
swap_cells_lem g zero c src s dst d hs hd =
    ap (λ (t : ℕ → ℕ). (src, record dst { storage = t })) (fun_ext (λ a. ground arith))
swap_cells_lem g (suc n) c src s dst d hs hd =
    rw
      (
        read-random src (s * 256 + c) hs,
        write-random dst (d * 256 + c) (src.storage (s * 256 + c)) hd,
      )
      (swap_cells_lem g n (c + 1) src s
          (record dst { storage = update dst.storage (d * 256 + c) (src.storage (s * 256 + c)) }) d
          hs hd
        ∙ ap (λ (t : ℕ → ℕ). (src, record dst { storage = t })) (fun_ext (λ a. ground arith)))

-- Between random access devices, __swap_cp_page copies the 256 bytes of one frame to the other and
-- changes no other byte.
pub copy_page_lem :
    (g : ℕ) (src : Memphy) (s : ℕ) (dst : Memphy) (d : ℕ)
    → src.rdmflg ≡ true
    → dst.rdmflg ≡ true
    → copy_page g src s dst d ≡ (
      src,
      record dst {
        storage = λ a. if a / 256 == d then src.storage (s * 256 + a % 256) else dst.storage a;
      },
    )
unfolding copy_page
copy_page_lem g src s dst d hs hd =
    swap_cells_lem g 256 0 src s dst d hs hd
    ∙ ap (λ (t : ℕ → ℕ). (src, record dst { storage = t })) (fun_ext (λ a. ground arith))

pub clean_frame_lem :
    (mp : Memphy) (f : ℕ)
    → clean_frame mp f ≡ record mp { storage = λ a. if a / 256 == f then 0 else mp.storage a }
unfolding clean_frame
clean_frame_lem mp f = ap (λ (t : ℕ → ℕ). record mp { storage = t }) (fun_ext (λ a. ground arith))
