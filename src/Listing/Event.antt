-- ===== src/Listing/Event.antt =====
-- Calls of the assembler as data, and what a list of them does to an assembler.
use netdump.Base.{ℕ, ◌+◌, ◌≤◌, ◌≡◌, refl, List, [], ◌∷◌, ◌++◌, arith}
use netdump.Bpf.{Instruction}
use netdump.Assembler.{LabelId, Assembler, new_label, emit, emit_jump, place_here}

pub data Event : Type 0 where
  fresh : Event
  ins : Instruction → Event
  jump : Instruction → LabelId → LabelId → Event
  here : LabelId → Event

abbrev pub perform : Event → Assembler → Assembler
perform fresh asm = (new_label asm).1
perform (ins inst) asm = (emit inst asm).1
perform (jump inst t f) asm = (emit_jump inst t f asm).1
perform (here l) asm = (place_here l asm).1

abbrev pub replay : List Event → Assembler → Assembler
replay [] asm = asm
replay (e ∷ es) asm = replay es (perform e asm)

-- The next label, and the next index, behind the calls.
abbrev pub next_after : ℕ → List Event → ℕ
next_after n [] = n
next_after n (fresh ∷ es) = next_after (n + 1) es
next_after n (ins _ ∷ es) = next_after n es
next_after n (jump _ _ _ ∷ es) = next_after n es
next_after n (here _ ∷ es) = next_after n es

abbrev pub advance : ℕ → List Event → ℕ
advance n [] = n
advance n (fresh ∷ es) = advance n es
advance n (ins _ ∷ es) = advance (n + 1) es
advance n (jump _ _ _ ∷ es) = advance (n + 1) es
advance n (here _ ∷ es) = advance n es

pub replay-append :
    (es ds : List Event) (asm : Assembler) → replay (es ++ ds) asm ≡ replay ds (replay es asm)
replay-append [] ds asm = refl
replay-append (e ∷ es) ds asm = replay-append es ds (perform e asm)

pub next_label-replay :
    (es : List Event) (asm : Assembler) → (replay es asm).next_label ≡ next_after asm.next_label es
next_label-replay [] asm = refl
next_label-replay (fresh ∷ es) asm = next_label-replay es (perform fresh asm)
next_label-replay (ins i ∷ es) asm = next_label-replay es (perform (ins i) asm)
next_label-replay (jump i t f ∷ es) asm = next_label-replay es (perform (jump i t f) asm)
next_label-replay (here l ∷ es) asm = next_label-replay es (perform (here l) asm)

pub next_after-append :
    (n : ℕ) (es ds : List Event) → next_after n (es ++ ds) ≡ next_after (next_after n es) ds
next_after-append n [] ds = refl
next_after-append n (fresh ∷ es) ds = next_after-append (n + 1) es ds
next_after-append n (ins _ ∷ es) ds = next_after-append n es ds
next_after-append n (jump _ _ _ ∷ es) ds = next_after-append n es ds
next_after-append n (here _ ∷ es) ds = next_after-append n es ds

pub advance-append : (n : ℕ) (es ds : List Event) → advance n (es ++ ds) ≡ advance (advance n es) ds
advance-append n [] ds = refl
advance-append n (fresh ∷ es) ds = advance-append n es ds
advance-append n (ins _ ∷ es) ds = advance-append (n + 1) es ds
advance-append n (jump _ _ _ ∷ es) ds = advance-append (n + 1) es ds
advance-append n (here _ ∷ es) ds = advance-append n es ds

pub next_after-ge : (n : ℕ) (es : List Event) → n ≤ next_after n es
next_after-ge n [] = omega arith
next_after-ge n (fresh ∷ es) = omega (arith, next_after-ge (n + 1) es)
next_after-ge n (ins _ ∷ es) = next_after-ge n es
next_after-ge n (jump _ _ _ ∷ es) = next_after-ge n es
next_after-ge n (here _ ∷ es) = next_after-ge n es

pub advance-ge : (n : ℕ) (es : List Event) → n ≤ advance n es
advance-ge n [] = omega arith
advance-ge n (fresh ∷ es) = advance-ge n es
advance-ge n (ins _ ∷ es) = omega (arith, advance-ge (n + 1) es)
advance-ge n (jump _ _ _ ∷ es) = omega (arith, advance-ge (n + 1) es)
advance-ge n (here _ ∷ es) = advance-ge n es
