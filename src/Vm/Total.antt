-- ===== src/Vm/Total.antt =====
-- The loop of `Vm::exec` ends: every round moves `pc` forwards.
use netdump.Base.{
  ℕ, zero, suc, ◌+◌, ◌^◌, ◌≤◌, ◌<◌, ◌≡◌, refl, Bool, false, Option, none, some, List, [], ◌∷◌,
  arith, length, get_elem?, get_elem?-lt,
}
use netdump.Bpf.{Instruction}
use netdump.Vm.{State, Round, go, ret, step, next_pc, exec_loop, exec, start}

-- The fields are a `u8`, a `u8` and a `u32`.
abbrev pub Fits : Instruction → Type 0
Fits i = (i.jt < 2 ^ 8) × (i.jf < 2 ^ 8) × (i.k < 2 ^ 32)

abbrev pub AllFit : List Instruction → Type 0
AllFit [] = Unit
AllFit (i ∷ is) = Fits i × AllFit is

-- The fields of a program are in range, and it is no longer than a slice can be.
pub record IsProgram (prog : List Instruction) : Type 0 where
  pub fit : AllFit prog
  pub short : length prog < 2 ^ 63

AllFit-get :
    (prog : List Instruction) (n : ℕ) {i : Instruction}
    → AllFit prog
    → get_elem? prog n ≡ some i
    → Fits i
AllFit-get [] n a h = absurd (ground arith)
AllFit-get (j ∷ is) zero {i} (f, a) h = ground arith
AllFit-get (j ∷ is) (suc n) (f, a) h = AllFit-get is n a h

-- No instruction whose fields are in range moves `pc` back, from a `pc` of at most 2^63.
pub step-pc :
    (packet : List ℕ) (inst : Instruction) (s s' : State)
    → Fits inst
    → s.pc < 2 ^ 63 + 1
    → step packet inst s ≡ go s'
    → s.pc ≤ s'.pc
unfolding step
step-pc packet inst s s' f h e = ground arith

step_on :
    (prog : List Instruction) (packet : List ℕ) (s s' : State) (inst : Instruction)
    → IsProgram prog
    → get_elem? prog s.pc ≡ some inst
    → step packet inst (next_pc s) ≡ go s'
    → s.pc + 1 ≤ s'.pc
step_on prog packet s s' inst w e h =
    let bound : s.pc < length prog = get_elem?-lt prog s.pc e in
    let short : length prog < 2 ^ 63 = w.short in
    step-pc packet inst (next_pc s) s' (AllFit-get prog s.pc w.fit e) (omega arith) h

-- The loop's outcome after one round, when it ends from the state that the round leaves.
round-total :
    (prog : List Instruction) (packet : List ℕ) (fuel : ℕ) (s : State) (o : Option Instruction)
    → get_elem? prog s.pc ≡ o
    → ((inst : Instruction) (s' : State)
        → get_elem? prog s.pc ≡ some inst
        → step packet inst (next_pc s) ≡ go s'
        → (b : Bool) × (exec_loop fuel prog packet s' ≡ some b))
    → (b : Bool) × (exec_loop (suc fuel) prog packet s ≡ some b)
unfolding exec_loop
round-total prog packet fuel s none e k = (false, ground arith)
round-total prog packet fuel s (some inst) e k = after (step packet inst (next_pc s)) refl
  where
    after :
        (r : Round)
        → step packet inst (next_pc s) ≡ r
        → (b : Bool) × (exec_loop (suc fuel) prog packet s ≡ some b)
    after (ret b) q = (b, ground arith)
    after (go s') q = let (b, hb) = k inst s' e q in (b, ground arith)

-- With more fuel than instructions left, and some, the loop ends from any state.
pub exec_loop-total :
    (prog : List Instruction) (packet : List ℕ) (fuel : ℕ) (s : State)
    → IsProgram prog
    → length prog < s.pc + fuel
    → 0 < fuel
    → (b : Bool) × (exec_loop fuel prog packet s ≡ some b)
exec_loop-total prog packet zero s w h p = elim p [ ]
exec_loop-total prog packet (suc fuel) s w h p =
    round-total prog packet fuel s (get_elem? prog s.pc) refl λ inst s' e q.
      exec_loop-total prog packet fuel s' w (omega (arith, step_on prog packet s s' inst w e q))
        (omega (arith, get_elem?-lt prog s.pc e))

-- `Vm::exec` returns on every packet, for a program whose fields are in range and that is shorter
-- than 2^63.
pub exec-total :
    (prog : List Instruction) (packet : List ℕ)
    → IsProgram prog
    → (b : Bool) × (exec prog packet ≡ some b)
unfolding exec
exec-total prog packet w =
    exec_loop-total prog packet (length prog + 1) start w (omega arith) (omega arith)
