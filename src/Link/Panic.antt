-- ===== src/Link/Panic.antt =====
-- When `resolve` panics: a jump over more than 255 instructions, and nothing else.
use netdump.Base.{
  ℕ, suc, ◌+◌, ◌≤◌, ◌<◌, ◌≡◌, refl, sym, ap, ◌∙◌, subst, Option, none, some, List, [], ◌∷◌, length,
  arith,
}
use netdump.Bpf.{Instruction}
use netdump.Ast.{FilterAst}
use netdump.Assembler.{
  LabelId, Assembler, get, checked_offset, offset, Result, ok, panic, Panic, offset_too_large, bind,
  resolve, resolve_loop, empty,
}
use netdump.Compiler.{assemble, compile}
use netdump.Listing.Event.{Event, fresh, ins, jump, here, replay, advance}
use netdump.Listing.Node.{program_events, assemble-replay}
use netdump.Link.Tidy.{program-Distinct}
use netdump.Link.Resolve.{raw, insts-replay, pending-replay, linked, resolve-linked}
use netdump.Link.Forward.{place, Forward, replay-Spots, program-Forward}

-- A panic is about an offset, in a program of more than 257 instructions.
abbrev pub OnlyTooLarge {ℓ} : {A : Type ℓ} → ℕ → Result A → Type 0
OnlyTooLarge top (ok a) = Unit
OnlyTooLarge top (panic e) = (e ≡ offset_too_large) × (257 < top)

OnlyTooLarge-bind :
    {A B : Type 0} (top : ℕ) (r : Result A) (k : A → Result B)
    → OnlyTooLarge top r
    → ((a : A) → OnlyTooLarge top (k a))
    → OnlyTooLarge top (bind r k)
OnlyTooLarge-bind top (ok a) k h g = g a
OnlyTooLarge-bind top (panic e) k h g = h

offset-OnlyTooLarge :
    (labels : List (LabelId × ℕ)) (top n l : ℕ)
    → n + 1 < place labels l
    → place labels l ≤ top
    → OnlyTooLarge top (offset labels n l)
offset-OnlyTooLarge labels top n l a b = unfold offset in go (get l labels) a b
  where
    go :
        (o : Option ℕ)
        → n + 1 < (let k : ℕ = elim o [ none ↦ 0 | some i ↦ suc i ] in k)
        → (let k : ℕ = elim o [ none ↦ 0 | some i ↦ suc i ] in k) ≤ top
        → OnlyTooLarge top (checked_offset n o)
    go none a b = absurd (omega arith)
    go (some i) a b = ground arith

linked-OnlyTooLarge :
    (labels : List (LabelId × ℕ)) (top n : ℕ) (es : List Event)
    → Forward (place labels) top n es
    → OnlyTooLarge top (linked labels n es)
unfolding linked
linked-OnlyTooLarge labels top n [] h = tt
linked-OnlyTooLarge labels top n (fresh ∷ es) h = linked-OnlyTooLarge labels top n es h
linked-OnlyTooLarge labels top n (here l ∷ es) h = linked-OnlyTooLarge labels top n es h
linked-OnlyTooLarge labels top n (ins i ∷ es) h =
    OnlyTooLarge-bind top (linked labels (n + 1) es) _ (linked-OnlyTooLarge labels top (n + 1) es h)
      (λ q. tt)
linked-OnlyTooLarge labels top n (jump i t f ∷ es) (a, b, c, d, h) =
    OnlyTooLarge-bind top (offset labels n t) _ (offset-OnlyTooLarge labels top n t a b) λ jt.
      OnlyTooLarge-bind top (offset labels n f) _ (offset-OnlyTooLarge labels top n f c d) λ jf.
        OnlyTooLarge-bind top (linked labels (n + 1) es) _
          (linked-OnlyTooLarge labels top (n + 1) es h) (λ q. tt)

length-raw : (n : ℕ) (es : List Event) → n + length (raw es) ≡ advance n es
length-raw n [] = omega arith
length-raw n (fresh ∷ es) = length-raw n es
length-raw n (here l ∷ es) = length-raw n es
length-raw n (ins i ∷ es) = omega (arith, length-raw (n + 1) es)
length-raw n (jump i t f ∷ es) = omega (arith, length-raw (n + 1) es)

-- The number of instructions that the compiler emits for a filter, before the jumps are resolved.
abbrev pub emitted : FilterAst → ℕ
emitted ast = length (assemble ast empty).1.insts

compile-OnlyTooLarge : (ast : FilterAst) → OnlyTooLarge (emitted ast) (compile ast)
unfolding compile resolve
compile-OnlyTooLarge ast =
    let es = program_events ast in
    let asm = replay es empty in
    let size : length (raw es) ≡ advance 0 es = omega (arith, length-raw 0 es) in
    let spots = replay-Spots es empty 0 refl (program-Distinct ast) in
    let result : resolve_loop asm.labels asm.pending asm.insts ≡ linked asm.labels 0 es =
      (λ i. resolve_loop asm.labels (pending-replay es empty i) (insts-replay es empty i))
      ∙ resolve-linked asm.labels es in
    let fine : OnlyTooLarge (length asm.insts) (resolve_loop asm.labels asm.pending asm.insts) =
      subst (OnlyTooLarge (length asm.insts)) (sym result) (
        linked-OnlyTooLarge asm.labels (length asm.insts) 0 es (
          program-Forward (place asm.labels) (length asm.insts) ast spots
            (omega (arith, size, ap length (insts-replay es empty))))) in
    subst
      (λ (a : Assembler). OnlyTooLarge (length a.insts) (resolve_loop a.labels a.pending a.insts))
      (sym (assemble-replay ast)) fine

-- `compile` panics only where a jump is too long for a byte, which takes a filter of more than 257
-- instructions: no label stays unresolved, and no jump goes back.
pub compile-panic :
    (ast : FilterAst) {e : Panic}
    → compile ast ≡ panic e
    → (e ≡ offset_too_large) × (257 < emitted ast)
compile-panic ast h = subst (OnlyTooLarge (emitted ast)) h (compile-OnlyTooLarge ast)

-- A filter of at most 257 instructions compiles.
pub compile-total :
    (ast : FilterAst) → emitted ast ≤ 257 → (prog : List Instruction) × (compile ast ≡ ok prog)
compile-total ast h = go (compile ast) refl
  where
    go :
        (r : Result (List Instruction))
        → compile ast ≡ r
        → (prog : List Instruction) × (compile ast ≡ ok prog)
    go (ok prog) e = (prog, e)
    go (panic p) e = absurd (omega (arith, (compile-panic ast e).1))
