-- ===== src/System/Isolation.antt =====
-- The processes of src/os.c in any order, and the memory of one of them.
use mathlib.Core.Path.{subst}
use operating_system_assignm.Prelude.{
  ℕ, ◌<◌, ◌≡◌, refl, ap, sym, ◌∙◌, inl, inr, ◌==◌, if◌then◌else◌, arith, Bool-cases, ==→eq, Option,
  some, List, [], ◌∷◌, get_elem?,
}
use operating_system_assignm.Mm.{Region}
use operating_system_assignm.Vm.Symbols.{Inside, byte_of}
use operating_system_assignm.Cpu.{Inst, Process, Stat, success, execute, run}
use operating_system_assignm.Cpu.Steps.{Proper, execute-IsSpace}
use operating_system_assignm.Cpu.View.{SparesAll, replay, replay_all, execute-byte, run-execute}
use operating_system_assignm.Cpu.Beside.{execute-Beside}
use operating_system_assignm.System.{System, process, with_process, load_process, run_process}
use operating_system_assignm.System.Invariant.{machine, IsSystem, with_process-IsSystem}
use operating_system_assignm.System.Loading.{load_process-IsSystem}
use operating_system_assignm.System.Kept.{loaded_kept, own_kept, other_kept}

-- The processes run in any order, each instruction proper and successful, and new ones come in
-- between, the one with the number `n` with the free list `uninit n` that malloc leaves it. The
-- instructions are listed with the processes that they are of.
pub data Runs (uninit : ℕ → List Region) : System → List (ℕ × Inst) → System → Type 0 where
  stop : {s : System} → Runs uninit s [] s
  loads :
      {s s' : System} {trace : List (ℕ × Inst)} (text : List Inst)
      → Runs uninit (load_process s text (uninit s.count)) trace s'
      → Runs uninit s trace s'
  runs :
      {s s1 s' : System} {i : Inst} {trace : List (ℕ × Inst)} (p : ℕ)
      → p < s.count
      → get_elem? (s.procs p).text (s.procs p).pc ≡ some i
      → Proper (s.procs p).mm i.opcode i.arg_0 i.arg_1 i.arg_2
      → run_process s p ≡ (success, s1)
      → Runs uninit s1 trace s'
      → Runs uninit s ((p, i) ∷ trace) s'

-- The instructions of a process.
abbrev pub of : ℕ → List (ℕ × Inst) → List Inst
of p [] = []
of p ((r, i) ∷ trace) = if r == p then i ∷ of p trace else of p trace

ran_well :
    (s : System) (p : ℕ) (s1 : System)
    → run_process s p ≡ (success, s1)
    → (q : Process) × (run (process s p) ≡ (success, q)) × (with_process s p q ≡ s1)
unfolding run_process
ran_well s p s1 h = (
  (run (process s p)).1,
  ap (λ (c : Stat). (c, (run (process s p)).1)) (ap (λ (r : Stat × System). r.0) h),
  ap (λ (r : Stat × System). r.1) h,
)

module _ (s : System) (v : IsSystem s) (p : ℕ) (h : p < s.count) (i : Inst)
    (proper : Proper (s.procs p).mm i.opcode i.arg_0 i.arg_1 i.arg_2) (q : Process)
    (ran : execute (machine s p) i.opcode i.arg_0 i.arg_1 i.arg_2 ≡ (success, q.machine)) where
  ran-IsSystem : IsSystem (with_process s p q)
  ran-IsSystem = with_process-IsSystem s v p h q (
      execute-IsSpace (machine s p) q.machine i.opcode i.arg_0 i.arg_1 i.arg_2 (v.spaces p h) proper
        ran)

  -- A byte of a process after the instruction of this one or of another.
  ran_byte :
      (r x o : ℕ) (trace : List (ℕ × Inst))
      → r < s.count
      → SparesAll x (of r ((p, i) ∷ trace))
      → Inside (s.procs r).mm x o
      → (b : Option ℕ) × Inside ((with_process s p q).procs r).mm x o
        × SparesAll x (of r trace)
        × (byte_of (machine (with_process s p q) r) x o ≡ b)
        × (replay_all x o (of r trace) b
            ≡ replay_all x o (of r ((p, i) ∷ trace)) (byte_of (machine s r) x o))
  unfolding replay_all
  ran_byte r x o trace l spares inside = elim (Bool-cases (p == r)) [
    | inl same ↦
        let eq : p ≡ r = ==→eq p r same in
        let here : SparesAll x (i ∷ of r trace) = rw same at spares in
        let (ins, byte) = own_kept s p q x o _ (
          execute-byte (machine s p) q.machine i.arg_0 i.arg_1 i.arg_2 x o (v.spaces p h)
            (subst (λ k. Inside (s.procs k).mm x o) (sym eq) inside) i.opcode proper here.0 ran) in
        (
          replay x o i.opcode i.arg_0 i.arg_1 i.arg_2 (byte_of (machine s r) x o),
          subst (λ k. Inside ((with_process s p q).procs k).mm x o) eq ins,
          here.1,
          subst
              (λ k.
                byte_of (machine (with_process s p q) k) x o
                ≡ replay x o i.opcode i.arg_0 i.arg_1 i.arg_2 (byte_of (machine s k) x o))
              eq byte,
          rw same refl,
        )
    | inr other ↦
        let (ins, byte) =
          other_kept s v p h q
            (execute-Beside (machine s p) q.machine i.arg_0 i.arg_1 i.arg_2 (v.spaces p h) i.opcode
              proper ran)
            r x o l (λ z. ground (arith, z)) inside in
        (byte_of (machine s r) x o, ins, rw other at spares, byte, rw other refl)
  ]

-- A process that is loaded with a cleared free list leaves the bytes of the others as they are.
loaded_cleared :
    (s : System) (text : List Inst) (u : List Region) (p x o : ℕ)
    → u ≡ []
    → IsSystem s
    → p < s.count
    → Inside (s.procs p).mm x o
    → IsSystem (load_process s text u)
      × (p < (load_process s text u).count)
      × Inside ((load_process s text u).procs p).mm x o
      × (byte_of (machine (load_process s text u) p) x o ≡ byte_of (machine s p) x o)
unfolding load_process
loaded_cleared s text u p x o e v h i =
    let (i1, byte) = loaded_kept s text v p x o h i in
    subst
      (λ u.
        IsSystem (load_process s text u)
        × (p < (load_process s text u).count)
        × Inside ((load_process s text u).procs p).mm x o
        × (byte_of (machine (load_process s text u) p) x o ≡ byte_of (machine s p) x o))
      (sym e) (load_process-IsSystem s text v, omega arith, i1, byte)

-- Let the memory of every process be in order on the memories that they share. While the processes
-- run proper instructions that succeed, one at a time in any order, and new ones are loaded in
-- between, with free lists that malloc has cleared, a byte of a symbol that its process does not
-- free or allocate again is that of the last write of this process to it, whatever the others do;
-- the memory of every process stays in order.
pub Runs-isolated :
    (uninit : ℕ → List Region) {s s' : System} (trace : List (ℕ × Inst)) (p x o : ℕ)
    → ((n : ℕ) → uninit n ≡ [])
    → IsSystem s
    → p < s.count
    → Inside (s.procs p).mm x o
    → SparesAll x (of p trace)
    → Runs uninit s trace s'
    → IsSystem s'
      × Inside (s'.procs p).mm x o
      × (byte_of (machine s' p) x o ≡ replay_all x o (of p trace) (byte_of (machine s p) x o))
unfolding replay_all load_process
Runs-isolated uninit trace p x o e0 v h i spares stop = (v, i, refl)
Runs-isolated uninit trace p x o e0 v h i spares (loads {s = s} {trace = t} text more) =
    let (v1, h1, i1, byte) = loaded_cleared s text (uninit s.count) p x o (e0 s.count) v h i in
    let (v', i', e) = Runs-isolated uninit t p x o e0 v1 h1 i1 spares more in
    (v', i', e ∙ ap (replay_all x o (of p t)) byte)
Runs-isolated uninit trace p x o e0 v h i spares
      (runs {s = s} {i = ins} {trace = rest} r l fetched proper ran more) =
    let (q, run_eq, into) = ran_well s r _ ran in
    let exec = run-execute (process s r) q ins fetched run_eq in
    let (b, i1, spares1, byte, replayed) =
      ran_byte s v r l ins proper q exec p x o rest h spares i in
    let (v2, h2, i2, byte2) =
      subst
        (λ t.
          IsSystem t × (p < t.count) × Inside (t.procs p).mm x o × (byte_of (machine t p) x o ≡ b))
        into (ran-IsSystem s v r l ins proper q exec, h, i1, byte) in
    let (v', i', e) = Runs-isolated uninit rest p x o e0 v2 h2 i2 spares1 more in
    (v', i', e ∙ ap (replay_all x o (of p rest)) byte2 ∙ replayed)

pub Runs-IsSystem :
    {uninit : ℕ → List Region} {s s' : System} {trace : List (ℕ × Inst)}
    → ((n : ℕ) → uninit n ≡ [])
    → Runs uninit s trace s'
    → IsSystem s
    → IsSystem s'
Runs-IsSystem e0 stop v = v
Runs-IsSystem {uninit} e0 (loads {s = s} text more) v = Runs-IsSystem e0 more (
    subst (λ u. IsSystem (load_process s text u)) (sym (e0 s.count))
      (load_process-IsSystem s text v))
Runs-IsSystem e0 (runs {s = s} {i = ins} p l fetched proper ran more) v =
    let (q, run_eq, into) = ran_well s p _ ran in
    Runs-IsSystem e0 more (
      subst IsSystem into
        (ran-IsSystem s v p l ins proper q (run-execute (process s p) q ins fetched run_eq)))
