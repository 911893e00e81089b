-- ===== src/Vm/Run.antt =====
-- What a program answers, as a relation: the steps that lead to an answer, with no fuel.
use netdump.Base.{ℕ, zero, suc, ◌≡◌, Bool, false, none, some, List, arith, get_elem?}
use netdump.Bpf.{Instruction}
use netdump.Vm.{State, go, ret, step, next_pc, exec_loop}

module _ (prog : List Instruction) (packet : List ℕ) where
  -- The rest of a run, once the instruction and its effect are known.
  pub data Runs : State → Bool → Type 0 where
    stops : {s : State} → get_elem? prog s.pc ≡ none → Runs s false
    returns :
        {s : State} {b : Bool} (inst : Instruction)
        → get_elem? prog s.pc ≡ some inst
        → step packet inst (next_pc s) ≡ ret b
        → Runs s b
    steps :
        {s : State} {b : Bool} (inst : Instruction) (s' : State)
        → get_elem? prog s.pc ≡ some inst
        → step packet inst (next_pc s) ≡ go s'
        → Runs s' b
        → Runs s b

  -- The loop answers what the relation says, as soon as it answers.
  pub exec_loop-Runs :
      (fuel : ℕ) (s : State) {b c : Bool} → Runs s b → exec_loop fuel prog packet s ≡ some c → c ≡ b
  unfolding exec_loop
  exec_loop-Runs zero s r h = absurd (ground arith)
  exec_loop-Runs (suc fuel) s (stops e) h = ground arith
  exec_loop-Runs (suc fuel) s (returns inst e q) h = ground arith
  exec_loop-Runs (suc fuel) s (steps inst s' e q r) h = exec_loop-Runs fuel s' r (ground arith)
