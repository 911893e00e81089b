-- ===== src/Link/Code.antt =====
-- A program that holds a fragment: `Code` speaks of its instructions, `Placed` of its labels.
use mathlib.Core.Option
use netdump.Base.{ℕ, ◌+◌, ◌-◌, ◌≤◌, ◌≡◌, some, List, [], ◌∷◌, ◌++◌, get_elem?}
use netdump.Bpf.{Instruction}
use netdump.Assembler.{LabelId, get}
use netdump.Listing.Event.{Event, fresh, ins, jump, here, advance}

-- The index of a label; labels that were never placed do not occur in what follows.
abbrev pub index_of : List (LabelId × ℕ) → LabelId → ℕ
index_of labels l = Option.get_or (get l labels) 0

-- A jump at index `n` reaches the label: forwards, by an offset that fits a byte.
abbrev pub Reaches : (LabelId → ℕ) → ℕ → LabelId → Type 0
Reaches index n l = (n + 1 ≤ index l) × (index l ≤ n + 1 + 255)

abbrev pub linked_jump : (LabelId → ℕ) → ℕ → Instruction → LabelId → LabelId → Instruction
linked_jump index n i t f = record i { jt = index t - (n + 1); jf = index f - (n + 1) }

abbrev pub Code : List Instruction → (LabelId → ℕ) → ℕ → List Event → Type 0
Code prog index n [] = Unit
Code prog index n (fresh ∷ es) = Code prog index n es
Code prog index n (ins i ∷ es) = (get_elem? prog n ≡ some i) × Code prog index (n + 1) es
Code prog index n (jump i t f ∷ es) =
    (get_elem? prog n ≡ some (linked_jump index n i t f))
    × Reaches index n t
    × Reaches index n f
    × Code prog index (n + 1) es
Code prog index n (here l ∷ es) = Code prog index n es

abbrev pub Placed : (LabelId → ℕ) → ℕ → List Event → Type 0
Placed index n [] = Unit
Placed index n (fresh ∷ es) = Placed index n es
Placed index n (ins i ∷ es) = Placed index (n + 1) es
Placed index n (jump i t f ∷ es) = Placed index (n + 1) es
Placed index n (here l ∷ es) = (index l ≡ n) × Placed index n es

module _ (prog : List Instruction) (index : LabelId → ℕ) where
  pub Code-append :
      (n : ℕ) (es ds : List Event)
      → Code prog index n (es ++ ds)
      → Code prog index n es × Code prog index (advance n es) ds
  Code-append n [] ds c = (tt, c)
  Code-append n (fresh ∷ es) ds c = Code-append n es ds c
  Code-append n (ins i ∷ es) ds (e, c) = let (h, k) = Code-append (n + 1) es ds c in ((e, h), k)
  Code-append n (jump i t f ∷ es) ds (e, p, q, c) =
      let (h, k) = Code-append (n + 1) es ds c in ((e, p, q, h), k)
  Code-append n (here l ∷ es) ds c = Code-append n es ds c

  pub Placed-append :
      (n : ℕ) (es ds : List Event)
      → Placed index n (es ++ ds)
      → Placed index n es × Placed index (advance n es) ds
  Placed-append n [] ds c = (tt, c)
  Placed-append n (fresh ∷ es) ds c = Placed-append n es ds c
  Placed-append n (ins i ∷ es) ds c = Placed-append (n + 1) es ds c
  Placed-append n (jump i t f ∷ es) ds c = Placed-append (n + 1) es ds c
  Placed-append n (here l ∷ es) ds (e, c) = let (h, k) = Placed-append n es ds c in ((e, h), k)
