-- ===== src/Ring/Ahead.antt =====
-- What the ring of crates/netdump-afpacket/src/lib.rs holds, step by step: the kernel adds the packets of a
-- block at the end, and the reader takes the first.
use mathlib.Core.List.{append_assoc, append-nil}
use netdump.Base.{
  ℕ, ◌+◌, ◌≤◌, ◌≡◌, refl, sym, ap, ◌∙◌, Bool, true, false, none, List, [], ◌∷◌, ◌++◌, if◌then◌else◌,
  length, Bool-cases, inl, inr, ltb, ltb→lt, ltb→le, arith,
}
use netdump.Core.{Packet}
use netdump.Ring.Block.{Block, is_user, packets_of}
use netdump.Ring.Reader.{AfPacketSocket, BlockCursor, retire, retire_all, written, take_packet}
use netdump.Ring.System.{
  System, Step, retires, Reach, next, IsOpened, kernel_retires, reader_takes, reader_releases,
  reader_loads,
}
use netdump.Ring.Inv.{Inv, pending, opened-Inv}
use netdump.Ring.Fifo.{Reach-Inv, nothing_pending}
use netdump.Ring.Gets.{AllUser}

dropped : List Packet → List Packet → List Packet
dropped [] ys = ys
dropped (x ∷ xs) [] = []
dropped (x ∷ xs) (y ∷ ys) = dropped xs ys

dropped-append : (xs ys : List Packet) → dropped xs (xs ++ ys) ≡ ys
unfolding dropped
dropped-append [] ys = refl
dropped-append (x ∷ xs) ys = dropped-append xs ys

append_cancel : (xs ys zs : List Packet) → xs ++ ys ≡ xs ++ zs → ys ≡ zs
append_cancel xs ys zs h = sym (dropped-append xs ys) ∙ ap (dropped xs) h ∙ dropped-append xs zs

-- The packets of blocks, in their order.
abbrev pub packets_of_all : ℕ → List Block → List Packet
packets_of_all ifindex [] = []
packets_of_all ifindex (block ∷ blocks) = packets_of ifindex block ++ packets_of_all ifindex blocks

-- What no step changes.
abbrev SameRing : AfPacketSocket → AfPacketSocket → Type 0
SameRing k m = (k.ifindex ≡ m.ifindex) × (k.block_nr ≡ m.block_nr) × (k.cursor ≡ m.cursor)

retire-SameRing : (block : Block) (k : AfPacketSocket) → SameRing (retire block k) k
retire-SameRing block k = go (is_user (k.ring.blocks k.ring.kernel_block))
  where
    go : (b : Bool) → SameRing (if b then k else written block k) k
    go true = (refl, refl, refl)
    go false = (refl, refl, refl)

module _ (s : System) (opened : IsOpened s) where
  pub Inv-at : {t : System} → Reach s t → Inv t
  Inv-at r = Reach-Inv (opened-Inv s opened) r

  -- What is delivered and produced says what is pending.
  pub pending_by :
      {t : System}
      → Reach s t
      → (ps : List Packet) → t.delivered ++ ps ≡ t.produced
      → pending t ≡ ps
  pending_by {t} r ps h = append_cancel t.delivered (pending t) ps ((Inv-at r).balance ∙ sym h)

  -- A reader that loads or releases a block has the same packets before it.
  pub loads-pending :
      {t : System} (r : Reach s t) (st : Step t (reader_loads t))
      → pending (reader_loads t) ≡ pending t
  loads-pending {t} r st = pending_by (next r st) (pending t) (Inv-at r).balance

  pub releases-pending :
      {t : System} (c : BlockCursor) (r : Reach s t) (st : Step t (reader_releases c t))
      → pending (reader_releases c t) ≡ pending t
  releases-pending {t} c r st = pending_by (next r st) (pending t) (Inv-at r).balance

  -- A reader that takes a packet takes the first.
  pub takes-pending :
      {t : System} (c : BlockCursor) (r : Reach s t) (st : Step t (reader_takes c t))
      → pending t ≡ (take_packet c t.sock).0 ∷ pending (reader_takes c t)
  takes-pending {t} c r st =
      let p = (take_packet c t.sock).0 in
      let after = pending (reader_takes c t) in
      pending_by r (p ∷ after)
        (sym (append_assoc t.delivered (p ∷ []) after) ∙ (Inv-at (next r st)).balance)

  -- A block that is retired adds its packets.
  retires-pending :
      {t : System} (block : Block) (r : Reach s t) (st : Step t (kernel_retires block t))
      → pending (kernel_retires block t) ≡ pending t ++ packets_of t.sock.ifindex block
  retires-pending {t} block r st =
      let more = packets_of t.sock.ifindex block in
      pending_by (next r st) (pending t ++ more) (
        sym (append_assoc t.delivered (pending t) more)
        ∙ ap (λ (ps : List Packet). ps ++ more) (Inv-at r).balance)

  -- A reader without a cursor, at a block that is the kernel's, has nothing before it, and no block is
  -- full.
  pub nothing_ahead :
      {t : System}
      → Reach s t
      → t.sock.cursor ≡ none
      → is_user (t.sock.ring.blocks t.sock.current_block) ≡ false
      → (pending t ≡ []) × (t.retired ≡ t.released)
  nothing_ahead {t} r e h =
      let v = Inv-at r in
      (
        pending_by r [] (append-nil t.delivered ∙ nothing_pending t v e h),
        elim (Bool-cases (ltb t.released t.retired)) [
          | inl f ↦
              let full = v.full t.released (omega arith) (ltb→lt t.released t.retired f) in
              let here' = ap (λ (j : ℕ). is_user (t.sock.ring.blocks j)) v.reader_at in
              absurd (ground (arith, full, here', h))
          | inr f ↦ omega (arith, v.behind, ltb→le t.released t.retired f)
        ],
      )

  -- Where there is room for blocks, the kernel retires them all.
  pub record Retired (t : System) (filled : List Block) : Type 0 where
    pub to : System
    pub reach : Reach s to
    pub at : to.sock ≡ retire_all filled t.sock
    pub index : to.sock.ifindex ≡ t.sock.ifindex
    pub size : to.sock.block_nr ≡ t.sock.block_nr
    pub cursor : to.sock.cursor ≡ t.sock.cursor
    pub added : pending to ≡ pending t ++ packets_of_all t.sock.ifindex filled

  pub retire_all-Retired :
      (filled : List Block) {t : System}
      → Reach s t
      → AllUser filled
      → t.retired + length filled ≤ t.released + t.sock.block_nr
      → Retired t filled
  retire_all-Retired [] {t} r u room = record {
    to = t;
    reach = r;
    at = refl;
    index = refl;
    size = refl;
    cursor = refl;
    added = sym (append-nil (pending t));
  }
  retire_all-Retired (block ∷ filled) {t} r (u, us) room =
      let v = Inv-at r in
      let free =
        ap (λ (j : ℕ). is_user (t.sock.ring.blocks j)) v.kernel_at
        ∙ v.drained t.retired (omega arith) (omega (arith, room)) in
      let st : Step t (kernel_retires block t) = retires block u free in
      let (index, nr, cursor) = retire-SameRing block t.sock in
      let h = retire_all-Retired filled (next r st) us (omega (arith, room, nr)) in
      record {
        to = h.to;
        reach = h.reach;
        at = h.at;
        index = h.index ∙ index;
        size = h.size ∙ nr;
        cursor = h.cursor ∙ cursor;
        added =
            h.added
            ∙ (λ i. retires-pending block r st i ++ packets_of_all (index i) filled)
            ∙ append_assoc (pending t) (packets_of t.sock.ifindex block)
                (packets_of_all t.sock.ifindex filled);
      }
