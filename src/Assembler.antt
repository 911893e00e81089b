-- ===== src/Assembler.antt =====
-- crates/netdump-filter/src/assembler.rs: the assembler. Its hash map of labels is a list of
-- pairs, the last insertion first; `expect` and `assert!` in `resolve` are the errors `Panic`.
use netdump.Base.{
  ℕ, ◌+◌, ◌-◌, Bool, Option, none, some, List, [], ◌∷◌, ◌++◌, leb, ◌==◌, if◌then◌else◌, length,
  get_elem?, set,
}
use netdump.Bpf.{Instruction}

abbrev pub LabelId : Type 0
LabelId = ℕ

pub record Assembler : Type 0 where
  pub insts : List Instruction
  pub labels : List (LabelId × ℕ)
  pub pending : List (ℕ × Bool × LabelId)
  pub next_label : LabelId

-- `Assembler::new`.
abbrev pub empty : Assembler
empty = record { insts = []; labels = []; pending = []; next_label = 0 }

-- Code that works on an assembler, `&mut self` included.
abbrev pub Asm {ℓ} : Type ℓ → Type ℓ
Asm A = Assembler → A × Assembler

infixl 5 ◌>>=◌ ◌>>◌
abbrev pub ◌>>=◌ {ℓ κ} : {A : Type ℓ} {B : Type κ} → Asm A → (A → Asm B) → Asm B
◌>>=◌ m f asm = f (m asm).0 (m asm).1

abbrev pub ◌>>◌ {ℓ κ} : {A : Type ℓ} {B : Type κ} → Asm A → Asm B → Asm B
◌>>◌ m k asm = k (m asm).1

-- The end of a function that returns nothing.
abbrev pub done : Asm (Unit {0})
done asm = (tt, asm)

abbrev pub new_label : Asm LabelId
new_label asm = (asm.next_label, record asm { next_label = asm.next_label + 1 })

abbrev pub next_index : Asm ℕ
next_index asm = (length asm.insts, asm)

abbrev pub emit : Instruction → Asm ℕ
emit inst asm = (length asm.insts, record asm { insts = asm.insts ++ inst ∷ [] })

abbrev pub emit_jump : Instruction → LabelId → LabelId → Asm ℕ
emit_jump inst true_label false_label asm = (
  length asm.insts,
  record asm {
    insts = asm.insts ++ inst ∷ [];
    pending =
        asm.pending
        ++ (length asm.insts, Bool.true, true_label)
          ∷ (length asm.insts, Bool.false, false_label)
          ∷ [];
  },
)

abbrev pub place_label : LabelId → ℕ → Asm (Unit {0})
place_label label index asm = (tt, record asm { labels = (label, index) ∷ asm.labels })

-- `asm.place_label(label, asm.next_index())`.
abbrev pub place_here : LabelId → Asm (Unit {0})
place_here label = do index ← next_index; place_label label index

-- What makes `resolve` panic; the last is the index of `self.insts[idx]`.
pub data Panic : Type 0 where
  unresolved_label not_after offset_too_large out_of_bounds : Panic

pub data Result {ℓ} (A : Type ℓ) : Type ℓ where
  ok : A → Result A
  panic : Panic → Result A

abbrev pub bind {ℓ κ} : {A : Type ℓ} {B : Type κ} → Result A → (A → Result B) → Result B
bind (ok a) f = f a
bind (panic e) f = panic e

-- `self.labels.get(&label)`.
unfoldable pub get : LabelId → List (LabelId × ℕ) → Option ℕ
get label [] = none
get label ((l, index) ∷ labels) = if l == label then some index else get label labels

-- `target.checked_sub(idx + 1)`, and the bound on the offset.
abbrev pub checked_offset : ℕ → Option ℕ → Result ℕ
checked_offset idx none = panic unresolved_label
checked_offset idx (some target) =
    if leb (idx + 1) target
    then (if leb (target - (idx + 1)) 255 then ok (target - (idx + 1)) else panic offset_too_large)
    else panic not_after

-- The offset of the jump at `idx` to a label.
unfoldable pub offset : List (LabelId × ℕ) → ℕ → LabelId → Result ℕ
offset labels idx label = checked_offset idx (get label labels)

abbrev pub patched : Bool → ℕ → Instruction → Instruction
patched Bool.true offset inst = record inst { jt = offset }
patched Bool.false offset inst = record inst { jf = offset }

-- `self.insts[idx].jt = offset` or `self.insts[idx].jf = offset`.
abbrev pub patch : Option Instruction → ℕ → Bool → ℕ → List Instruction → Result (List Instruction)
patch none idx is_jt offset insts = panic out_of_bounds
patch (some inst) idx is_jt offset insts = ok (set insts idx (patched is_jt offset inst))

-- The loop of `resolve` over the pending references.
unfoldable pub resolve_loop :
    List (LabelId × ℕ) → List (ℕ × Bool × LabelId) → List Instruction → Result (List Instruction)
resolve_loop labels [] insts = ok insts
resolve_loop labels ((idx, is_jt, label) ∷ pending) insts = bind (offset labels idx label) λ off.
    bind (patch (get_elem? insts idx) idx is_jt off insts)
      λ insts'. resolve_loop labels pending insts'

unfoldable pub resolve : Assembler → Result (List Instruction)
unfolding resolve_loop offset get
resolve asm = resolve_loop asm.labels asm.pending asm.insts
