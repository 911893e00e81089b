-- ===== src/Link/Resolve.antt =====
-- `resolve` patches every jump of the calls, in order, or panics at the first that it cannot.
use mathlib.Core.List.{append_assoc, append-nil}
use mathlib.Core.Option.{get_or}
use netdump.Base.{
  ℕ, ◌+◌, ◌-◌, ◌≤◌, ◌≡◌, refl, sym, ap, ◌∙◌, subst, Bool, Option, none, some, List, [], ◌∷◌, ◌++◌,
  length, get_elem?, get_elem?-append, set-append, length-append, arith,
}
use netdump.Bpf.{Instruction}
use netdump.Assembler.{
  LabelId, Assembler, empty, Result, ok, panic, bind, get, checked_offset, offset, patch, resolve,
  resolve_loop,
}
use netdump.Listing.Event.{Event, fresh, ins, jump, here, perform, replay}
use netdump.Link.Code.{Code, Reaches, index_of}

abbrev pub raw : List Event → List Instruction
raw [] = []
raw (fresh ∷ es) = raw es
raw (ins i ∷ es) = i ∷ raw es
raw (jump i t f ∷ es) = i ∷ raw es
raw (here l ∷ es) = raw es

abbrev pub refs : ℕ → List Event → List (ℕ × Bool × LabelId)
refs n [] = []
refs n (fresh ∷ es) = refs n es
refs n (ins i ∷ es) = refs (n + 1) es
refs n (jump i t f ∷ es) = (n, Bool.true, t) ∷ (n, Bool.false, f) ∷ refs (n + 1) es
refs n (here l ∷ es) = refs n es

length-snoc : {A : Type 0} (xs : List A) (x : A) → length (xs ++ x ∷ []) ≡ length xs + 1
length-snoc xs x = length-append xs (x ∷ [])

pub insts-replay : (es : List Event) (asm : Assembler) → (replay es asm).insts ≡ asm.insts ++ raw es
insts-replay [] asm = sym (append-nil _)
insts-replay (fresh ∷ es) asm = insts-replay es (perform fresh asm)
insts-replay (ins i ∷ es) asm =
    insts-replay es (perform (ins i) asm) ∙ append_assoc asm.insts (i ∷ []) (raw es)
insts-replay (jump i t f ∷ es) asm =
    insts-replay es (perform (jump i t f) asm) ∙ append_assoc asm.insts (i ∷ []) (raw es)
insts-replay (here l ∷ es) asm = insts-replay es (perform (here l) asm)

pub pending-replay :
    (es : List Event) (asm : Assembler)
    → (replay es asm).pending ≡ asm.pending ++ refs (length asm.insts) es
pending-replay [] asm = sym (append-nil _)
pending-replay (fresh ∷ es) asm = pending-replay es (perform fresh asm)
pending-replay (ins i ∷ es) asm =
    pending-replay es (perform (ins i) asm)
    ∙ ap (λ (n : ℕ). asm.pending ++ refs n es) (length-snoc asm.insts i)
pending-replay (jump i t f ∷ es) asm =
    pending-replay es (perform (jump i t f) asm)
    ∙ append_assoc asm.pending _ _
    ∙ ap
        (λ (n : ℕ).
          asm.pending
          ++ (length asm.insts, Bool.true, t) ∷ (length asm.insts, Bool.false, f) ∷ refs n es)
        (length-snoc asm.insts i)
pending-replay (here l ∷ es) asm = pending-replay es (perform (here l) asm)

module _ (labels : List (LabelId × ℕ)) where
  -- The program from index `n` on, in one pass over the calls.
  unfoldable pub linked : ℕ → List Event → Result (List Instruction)
  linked n [] = ok []
  linked n (fresh ∷ es) = linked n es
  linked n (ins i ∷ es) = bind (linked (n + 1) es) λ q. ok (i ∷ q)
  linked n (jump i t f ∷ es) = bind (offset labels n t) λ jt.
      bind (offset labels n f)
        λ jf. bind (linked (n + 1) es) λ q. ok (record i { jt = jt; jf = jf } ∷ q)
  linked n (here l ∷ es) = linked n es

  -- Both references of one jump, when its offsets are `r` and `s`.
  patch_both :
      (pre xs : List Instruction) (i : Instruction) (r s : Result ℕ)
      (k : List Instruction → Result (List Instruction))
      → bind r (λ jt.
        bind
          (patch (get_elem? (pre ++ i ∷ xs) (length pre)) (length pre) Bool.true jt (pre ++ i ∷ xs))
          λ is.
            bind s λ jf. bind (patch (get_elem? is (length pre)) (length pre) Bool.false jf is) k)
        ≡ bind r λ jt. bind s λ jf. k (pre ++ record i { jt = jt; jf = jf } ∷ xs)
  patch_both pre xs i (panic e) s k = refl
  patch_both pre xs i (ok jt) (panic e) k = rw get_elem?-append refl
  patch_both pre xs i (ok jt) (ok jf) k = simp (get_elem?-append, set-append)

  bind_after :
      (r s : Result ℕ) (g : ℕ → ℕ → Result (List Instruction))
      (k : List Instruction → Result (List Instruction))
      → bind (bind r λ jt. bind s λ jf. g jt jf) k ≡ bind r λ jt. bind s λ jf. bind (g jt jf) k
  bind_after (panic e) s g k = refl
  bind_after (ok a) (panic e) g k = refl
  bind_after (ok a) (ok b) g k = refl

  bind_cons :
      (pre : List Instruction) (i : Instruction) (r : Result (List Instruction))
      → bind r (λ q. ok ((pre ++ i ∷ []) ++ q)) ≡ bind (bind r λ q. ok (i ∷ q)) (λ q. ok (pre ++ q))
  bind_cons pre i (panic e) = refl
  bind_cons pre i (ok q) = ap ok (append_assoc pre (i ∷ []) q)

  -- One more instruction is done.
  snoc_step :
      (pre : List Instruction) (i : Instruction) (es : List Event)
      → resolve_loop labels (refs (length (pre ++ i ∷ [])) es) ((pre ++ i ∷ []) ++ raw es)
        ≡ bind (linked (length (pre ++ i ∷ [])) es) (λ q. ok ((pre ++ i ∷ []) ++ q))
      → resolve_loop labels (refs (length pre + 1) es) (pre ++ i ∷ raw es)
        ≡ bind (bind (linked (length pre + 1) es) λ q. ok (i ∷ q)) (λ q. ok (pre ++ q))
  snoc_step pre i es ih =
      let h = rw (length-snoc pre i, append_assoc pre (i ∷ []) (raw es)) at ih in
      h ∙ bind_cons pre i (linked (length pre + 1) es)

  -- The loop, run from a prefix that is done.
  pub resolve_loop-linked :
      (pre : List Instruction) (es : List Event)
      → resolve_loop labels (refs (length pre) es) (pre ++ raw es)
        ≡ bind (linked (length pre) es) (λ q. ok (pre ++ q))
  unfolding resolve_loop linked
  resolve_loop-linked pre [] = refl
  resolve_loop-linked pre (fresh ∷ es) = resolve_loop-linked pre es
  resolve_loop-linked pre (here l ∷ es) = resolve_loop-linked pre es
  resolve_loop-linked pre (ins i ∷ es) = snoc_step pre i es (resolve_loop-linked (pre ++ i ∷ []) es)
  resolve_loop-linked pre (jump i t f ∷ es) =
      patch_both pre (raw es) i (offset labels (length pre) t) (offset labels (length pre) f)
        (resolve_loop labels (refs (length pre + 1) es))
      ∙ (λ d. bind (offset labels (length pre) t) λ jt. bind (offset labels (length pre) f) λ jf.
          snoc_step pre (record i { jt = jt; jf = jf }) es
            (resolve_loop-linked (pre ++ record i { jt = jt; jf = jf } ∷ []) es) d)
      ∙ sym (
          bind_after (offset labels (length pre) t) (offset labels (length pre) f)
            (λ jt jf. bind (linked (length pre + 1) es) λ q. ok (record i { jt = jt; jf = jf } ∷ q))
            (λ q. ok (pre ++ q)))

  -- The program is what one pass makes of the calls.
  pub resolve-linked : (es : List Event) → resolve_loop labels (refs 0 es) (raw es) ≡ linked 0 es
  resolve-linked es = resolve_loop-linked [] es ∙ bind_ok (linked 0 es)
    where
      bind_ok : (r : Result (List Instruction)) → bind r ok ≡ r
      bind_ok (ok q) = refl
      bind_ok (panic e) = refl

  pub offset_inv :
      (n : ℕ) (l : LabelId) {d : ℕ}
      → offset labels n l ≡ ok d
      → Reaches (index_of labels) n l × (d ≡ index_of labels l - (n + 1))
  offset_inv n l h = unfold offset in go (get l labels) h
    where
      go :
          (o : Option ℕ) {d : ℕ}
          → checked_offset n o ≡ ok d
          → ((n + 1 ≤ get_or o 0) × (get_or o 0 ≤ n + 1 + 255)) × (d ≡ get_or o 0 - (n + 1))
      go none h = absurd (ground arith)
      go (some target) h = ground arith

  pub bind_inv :
      {A B : Type 0} (r : Result A) (k : A → Result B) {b : B}
      → bind r k ≡ ok b
      → (a : A) × (r ≡ ok a) × (k a ≡ ok b)
  bind_inv (ok a) k h = (a, refl, h)
  bind_inv (panic e) k h = absurd (ground arith)

  pub ok_inj : {A : Type 0} {a b : A} → ok a ≡ ok b → a ≡ b
  ok_inj h = cc

  -- The instruction right behind a prefix of length `n`, and the code after it.
  standing :
      (pre rest : List Instruction) (i : Instruction) (n : ℕ) (es : List Event)
      → length pre ≡ n
      → Code ((pre ++ i ∷ []) ++ rest) (index_of labels) (n + 1) es
      → (get_elem? (pre ++ i ∷ rest) n ≡ some i)
        × Code (pre ++ i ∷ rest) (index_of labels) (n + 1) es
  standing pre rest i n es e c =
      (rw (← e) (get_elem?-append pre rest i), rw (append_assoc pre (i ∷ []) rest) at c)

  snoc_length :
      (pre : List Instruction) (i : Instruction) (n : ℕ)
      → length pre ≡ n
      → length (pre ++ i ∷ []) ≡ n + 1
  snoc_length pre i n e = omega (arith, length-snoc pre i)

  pub linked-Code :
      (pre q : List Instruction) (n : ℕ) (es : List Event)
      → length pre ≡ n
      → linked n es ≡ ok q
      → Code (pre ++ q) (index_of labels) n es
  unfolding linked
  linked-Code pre q n [] e h = tt
  linked-Code pre q n (fresh ∷ es) e h = linked-Code pre q n es e h
  linked-Code pre q n (here l ∷ es) e h = linked-Code pre q n es e h
  linked-Code pre q n (ins i ∷ es) e h =
      let (rest, hr, hq) = bind_inv (linked (n + 1) es) (λ q. ok (i ∷ q)) h in
      subst (λ (z : List Instruction). Code (pre ++ z) (index_of labels) n (ins i ∷ es)) (ok_inj hq)
        (standing pre rest i n es e
          (linked-Code (pre ++ i ∷ []) rest (n + 1) es (snoc_length pre i n e) hr))
  linked-Code pre q n (jump i t f ∷ es) e h =
      let (jt, ht, h₁) = bind_inv (offset labels n t) _ h in
      let (jf, hf, h₂) = bind_inv (offset labels n f) _ h₁ in
      let i' : Instruction = record i { jt = jt; jf = jf } in
      let (rest, hr, hq) = bind_inv (linked (n + 1) es) (λ q. ok (i' ∷ q)) h₂ in
      let (rt, et) = offset_inv n t ht in
      let (rf, ef) = offset_inv n f hf in
      let c =
        standing pre rest i' n es e
          (linked-Code (pre ++ i' ∷ []) rest (n + 1) es (snoc_length pre i' n e) hr) in
      subst (λ (z : List Instruction). Code (pre ++ z) (index_of labels) n (jump i t f ∷ es))
        (ok_inj hq) (c.0 ∙ (λ d. some (record i { jt = et d; jf = ef d })), rt, rf, c.1)

-- Of an assembler that a list of calls made from the empty one, a program that `resolve` returns
-- holds the emitted instructions in their order, each jump with the distances to where its labels
-- were placed.
pub resolve-Code :
    (es : List Event) (asm : Assembler) {prog : List Instruction}
    → asm ≡ replay es empty
    → resolve asm ≡ ok prog
    → Code prog (index_of asm.labels) 0 es
unfolding resolve
resolve-Code es asm {prog} e h = linked-Code asm.labels [] prog 0 es refl (
    sym (resolve-linked asm.labels es)
    ∙ (λ i. resolve_loop asm.labels (pending_eq i) (insts_eq i))
    ∙ h)
  where
    pending_eq : refs 0 es ≡ asm.pending
    pending_eq = sym (pending-replay es empty) ∙ ap (λ (a : Assembler). a.pending) (sym e)

    insts_eq : raw es ≡ asm.insts
    insts_eq = sym (insts-replay es empty) ∙ ap (λ (a : Assembler). a.insts) (sym e)
