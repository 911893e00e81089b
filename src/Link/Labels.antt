-- ===== src/Link/Labels.antt =====
-- Each label of the calls is placed once, so the assembler's map holds its place in the end.
use mathlib.Core.Option.{get_or}
use netdump.Base.{
  ℕ, ◌+◌, ◌≤◌, ◌<◌, ◌≡◌, ◌≢◌, ◌⊎◌, refl, ap, ◌∙◌, List, [], ◌∷◌, ◌++◌, length, length-append, arith,
}
use netdump.Assembler.{LabelId, Assembler, get}
use netdump.Listing.Event.{Event, fresh, ins, jump, here, perform, replay}
use netdump.Link.Code.{Placed, index_of}

-- No call places the label.
abbrev pub NotPlaced : LabelId → List Event → Type 0
NotPlaced l [] = Unit
NotPlaced l (fresh ∷ es) = NotPlaced l es
NotPlaced l (ins i ∷ es) = NotPlaced l es
NotPlaced l (jump i t f ∷ es) = NotPlaced l es
NotPlaced l (here m ∷ es) = (m ≢ l) × NotPlaced l es

-- No label is placed twice.
abbrev pub Distinct : List Event → Type 0
Distinct [] = Unit
Distinct (fresh ∷ es) = Distinct es
Distinct (ins i ∷ es) = Distinct es
Distinct (jump i t f ∷ es) = Distinct es
Distinct (here m ∷ es) = NotPlaced m es × Distinct es

-- Every label that is placed is one of `lo` up to `hi`.
abbrev pub PlacesIn : ℕ → ℕ → List Event → Type 0
PlacesIn lo hi [] = Unit
PlacesIn lo hi (fresh ∷ es) = PlacesIn lo hi es
PlacesIn lo hi (ins i ∷ es) = PlacesIn lo hi es
PlacesIn lo hi (jump i t f ∷ es) = PlacesIn lo hi es
PlacesIn lo hi (here m ∷ es) = (lo ≤ m) × (m < hi) × PlacesIn lo hi es

pub PlacesIn-append :
    (lo hi : ℕ) (es ds : List Event)
    → PlacesIn lo hi es
    → PlacesIn lo hi ds
    → PlacesIn lo hi (es ++ ds)
PlacesIn-append lo hi [] ds p q = q
PlacesIn-append lo hi (fresh ∷ es) ds p q = PlacesIn-append lo hi es ds p q
PlacesIn-append lo hi (ins i ∷ es) ds p q = PlacesIn-append lo hi es ds p q
PlacesIn-append lo hi (jump i t f ∷ es) ds p q = PlacesIn-append lo hi es ds p q
PlacesIn-append lo hi (here m ∷ es) ds (a, b, p) q = (a, b, PlacesIn-append lo hi es ds p q)

pub PlacesIn-mono :
    (lo hi lo' hi' : ℕ) (es : List Event)
    → lo' ≤ lo
    → hi ≤ hi'
    → PlacesIn lo hi es
    → PlacesIn lo' hi' es
PlacesIn-mono lo hi lo' hi' [] a b p = tt
PlacesIn-mono lo hi lo' hi' (fresh ∷ es) a b p = PlacesIn-mono lo hi lo' hi' es a b p
PlacesIn-mono lo hi lo' hi' (ins i ∷ es) a b p = PlacesIn-mono lo hi lo' hi' es a b p
PlacesIn-mono lo hi lo' hi' (jump i t f ∷ es) a b p = PlacesIn-mono lo hi lo' hi' es a b p
PlacesIn-mono lo hi lo' hi' (here m ∷ es) a b (c, d, p) =
    (omega arith, omega arith, PlacesIn-mono lo hi lo' hi' es a b p)

pub NotPlaced-outside :
    (l lo hi : ℕ) (es : List Event) → (l < lo) ⊎ (hi ≤ l) → PlacesIn lo hi es → NotPlaced l es
NotPlaced-outside l lo hi [] o p = tt
NotPlaced-outside l lo hi (fresh ∷ es) o p = NotPlaced-outside l lo hi es o p
NotPlaced-outside l lo hi (ins i ∷ es) o p = NotPlaced-outside l lo hi es o p
NotPlaced-outside l lo hi (jump i t f ∷ es) o p = NotPlaced-outside l lo hi es o p
NotPlaced-outside l lo hi (here m ∷ es) o (a, b, p) =
    (omega arith, NotPlaced-outside l lo hi es o p)

pub NotPlaced-append :
    (l : ℕ) (es ds : List Event) → NotPlaced l es → NotPlaced l ds → NotPlaced l (es ++ ds)
NotPlaced-append l [] ds p q = q
NotPlaced-append l (fresh ∷ es) ds p q = NotPlaced-append l es ds p q
NotPlaced-append l (ins i ∷ es) ds p q = NotPlaced-append l es ds p q
NotPlaced-append l (jump i t f ∷ es) ds p q = NotPlaced-append l es ds p q
NotPlaced-append l (here m ∷ es) ds (a, p) q = (a, NotPlaced-append l es ds p q)

-- Two fragments, where the second places no label from the range of the first.
pub Distinct-append :
    (lo hi : ℕ) (es ds : List Event)
    → PlacesIn lo hi es
    → ((m : ℕ) → lo ≤ m → m < hi → NotPlaced m ds)
    → Distinct es
    → Distinct ds
    → Distinct (es ++ ds)
Distinct-append lo hi [] ds p q c d = d
Distinct-append lo hi (fresh ∷ es) ds p q c d = Distinct-append lo hi es ds p q c d
Distinct-append lo hi (ins i ∷ es) ds p q c d = Distinct-append lo hi es ds p q c d
Distinct-append lo hi (jump i t f ∷ es) ds p q c d = Distinct-append lo hi es ds p q c d
Distinct-append lo hi (here m ∷ es) ds (a, b, p) q (c, d) e =
    (NotPlaced-append m es ds c (q m a b), Distinct-append lo hi es ds p q d e)

-- The calls leave the place of a label that they do not place.
pub get-replay :
    (l : LabelId) (es : List Event) (asm : Assembler)
    → NotPlaced l es
    → get l (replay es asm).labels ≡ get l asm.labels
unfolding get
get-replay l [] asm p = refl
get-replay l (fresh ∷ es) asm p = get-replay l es (perform fresh asm) p
get-replay l (ins i ∷ es) asm p = get-replay l es (perform (ins i) asm) p
get-replay l (jump i t f ∷ es) asm p = get-replay l es (perform (jump i t f) asm) p
get-replay l (here m ∷ es) asm (a, p) = get-replay l es (perform (here m) asm) p ∙ ground arith

pub replay-Placed :
    (es : List Event) (asm : Assembler) (n : ℕ)
    → length asm.insts ≡ n
    → Distinct es
    → Placed (index_of (replay es asm).labels) n es
unfolding get
replay-Placed [] asm n e d = tt
replay-Placed (fresh ∷ es) asm n e d = replay-Placed es (perform fresh asm) n e d
replay-Placed (ins i ∷ es) asm n e d =
    replay-Placed es (perform (ins i) asm) (n + 1) (omega (arith, length-append asm.insts (i ∷ [])))
      d
replay-Placed (jump i t f ∷ es) asm n e d =
    replay-Placed es (perform (jump i t f) asm) (n + 1)
      (omega (arith, length-append asm.insts (i ∷ []))) d
replay-Placed (here m ∷ es) asm n e (p, d) = (
  ap (λ o. get_or o 0) (get-replay m es (perform (here m) asm) p) ∙ ground arith,
  replay-Placed es (perform (here m) asm) n e d,
)
