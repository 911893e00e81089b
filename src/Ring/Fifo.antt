-- ===== src/Ring/Fifo.antt =====
-- What holds in every reachable state of a ring: the reader reads only a block that is its own, and
-- what it delivers is what the kernel produced, in order.
use netdump.Base.{
  ℕ, ◌-◌, ◌≤◌, ◌≡◌, sym, ap, ◌∙◌, subst, Bool, true, false, Option, none, some, ◌++◌, Bool-cases,
  inl, inr, if◌then◌else◌, arith, ltb, ltb→lt, ltb→le,
}
use mathlib.Core.List.{append-nil}
use netdump.Ring.Block.{Block, is_user}
use netdump.Ring.Reader.{AfPacketSocket, BlockCursor, retire, written}
use netdump.Ring.System.{System, Step, retires, takes, releases, loads, Reach, here, next, IsOpened}
use netdump.Ring.Slots.{window, put_block-other}
use netdump.Ring.Inv.{Inv, CursorFits, pending, pending_at, opened-Inv}
use netdump.Ring.Kernel.{retires-Inv}
use netdump.Ring.Moves.{takes-Inv, releases-Inv, loads-Inv}

pub Step-Inv : {s t : System} → Inv s → Step s t → Inv t
Step-Inv {s} v (retires block u h) = retires-Inv s v block u h
Step-Inv {s} v (takes c e h) = takes-Inv s v c e h
Step-Inv {s} v (releases c e h) = releases-Inv s v c e h
Step-Inv {s} v (loads e u) = loads-Inv s v e u

pub Reach-Inv : {s t : System} → Inv s → Reach s t → Inv t
Reach-Inv v here = v
Reach-Inv v (next r st) = Step-Inv (Reach-Inv v r) st

-- In every state that an opened ring comes to, however the kernel and the reader take turns, the
-- packets delivered are the first of those that the kernel produced, each once and in their order;
-- the others are those that the ring still holds.
pub delivered-in_order :
    {s t : System} → IsOpened s → Reach s t → t.delivered ++ pending t ≡ t.produced
delivered-in_order {s} o r = (Reach-Inv (opened-Inv s o) r).balance

cursor_block_user :
    {t : System} {c : BlockCursor}
    → Inv t
    → t.sock.cursor ≡ some c
    → is_user (t.sock.ring.blocks c.base) ≡ true
cursor_block_user {t} {c} v e =
    let (at, below, seen) = subst (CursorFits t) e v.cursor_fits in
    ap (λ (k : ℕ). is_user (t.sock.ring.blocks k)) (at ∙ v.reader_at)
    ∙ v.full t.released (omega arith) below

retire-kept :
    (sock : AfPacketSocket) (block : Block) (k : ℕ)
    → is_user (sock.ring.blocks k) ≡ true
    → (retire block sock).ring.blocks k ≡ sock.ring.blocks k
retire-kept sock block k u = elim (Bool-cases (is_user (sock.ring.blocks sock.ring.kernel_block))) [
  | inl f ↦
      ap
        (λ (b : Bool).
          (let z : AfPacketSocket = if b then sock else written block sock in z).ring.blocks k)
        f
  | inr f ↦
      ap
        (λ (b : Bool).
          (let z : AfPacketSocket = if b then sock else written block sock in z).ring.blocks k)
        f
      ∙ put_block-other sock.ring.blocks sock.ring.kernel_block block k (λ e.
        let other = subst (λ (j : ℕ). is_user (sock.ring.blocks j) ≡ false) e f in cc (u, other))
]

-- In every state that an opened ring comes to, the block that the cursor is in is the reader's by
-- its status, and no block that the kernel retires is written there.
pub cursor-untouched :
    {s t : System} {c : BlockCursor}
    → IsOpened s
    → Reach s t
    → t.sock.cursor ≡ some c
    → (block : Block)
    → (is_user (t.sock.ring.blocks c.base) ≡ true)
      × ((retire block t.sock).ring.blocks c.base ≡ t.sock.ring.blocks c.base)
cursor-untouched {s} {t} {c} o r e block =
    let u = cursor_block_user (Reach-Inv (opened-Inv s o) r) e in
    (u, retire-kept t.sock block c.base u)

-- A reader that has no cursor, at a block that is not its own, has delivered everything.
pub nothing_pending :
    (t : System)
    → Inv t
    → t.sock.cursor ≡ none
    → is_user (t.sock.ring.blocks t.sock.current_block) ≡ false
    → t.delivered ≡ t.produced
nothing_pending t v e h =
    let all_read : t.retired ≤ t.released = elim (Bool-cases (ltb t.released t.retired)) [
      | inl f ↦
          let mine = v.full t.released (omega arith) (ltb→lt t.released t.retired f) in
          let other = subst (λ (k : ℕ). is_user (t.sock.ring.blocks k) ≡ false) v.reader_at h in
          absurd (true_not_false (sym mine ∙ other))
      | inr f ↦ ltb→le t.released t.retired f
    ] in
    let none_left : 0 ≡ t.retired - t.released = omega arith in
    sym (append-nil t.delivered)
    ∙ ap
        (λ (k : ℕ).
          t.delivered ++ window t.sock.ifindex t.sock.block_nr t.sock.ring.blocks t.released k)
        none_left
    ∙ ap (λ (o : Option BlockCursor). t.delivered ++ pending_at t.sock t.released t.retired o)
        (sym e)
    ∙ v.balance
  where
    true_not_false : true ≡ false → ⊥
    true_not_false q = cc q
