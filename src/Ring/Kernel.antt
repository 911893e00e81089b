-- ===== src/Ring/Kernel.antt =====
-- A block that the kernel retires keeps the invariant.
use netdump.Base.{
  ℕ, suc, ◌+◌, ◌-◌, ◌%◌, ◌≤◌, ◌<◌, ◌≡◌, ◌≢◌, refl, sym, ap, ◌∙◌, subst, true, false, Option, none,
  some, List, ◌++◌, ltb, arith,
}
use netdump.Core.{Packet}
use netdump.Ring.Block.{Block, is_user, packets_from, packets_of}
use netdump.Ring.Reader.{AfPacketSocket, BlockCursor, put_block, retire}
use netdump.Ring.System.{System, kernel_retires}
use netdump.Ring.Slots.{mod-apart, window, put_block_self, put_block-other, window-put, window-last}
use mathlib.Core.List.{append_assoc}
use netdump.Ring.Reader.{written}
use netdump.Ring.Inv.{pending_at, CursorFits, Inv}
use netdump.Base.{Bool-cases, ltb→lt, ltb→le, inl, inr}
use native.Mathlib.Nat.{mod-add-mod, add-mod_right}

module _ (s : System) (v : Inv s) (block : Block) where
  abbrev sock : AfPacketSocket
  sock = s.sock

  abbrev nr : ℕ
  nr = s.sock.block_nr

  abbrev slot : ℕ
  slot = s.sock.ring.kernel_block

  abbrev after : ℕ → Block
  after = put_block s.sock.ring.blocks slot block

  -- The next block is the kernel's only while the ring is not full.
  room : is_user (s.sock.ring.blocks slot) ≡ false → s.retired < s.released + nr
  room h = elim (Bool-cases (ltb s.retired (s.released + nr))) [
    | inl e ↦ ltb→lt s.retired (s.released + nr) e
    | inr e ↦
        let same : s.retired ≡ s.released + nr =
          omega (arith, ltb→le s.retired (s.released + nr) e, v.within) in
        let round : s.retired % nr ≡ s.released % nr =
          ap (λ (t : ℕ). t % nr) same ∙ add-mod_right s.released nr in
        let mine = v.full s.released (omega arith) (omega (arith, same, v.some_blocks)) in
        let other =
          subst (λ (t : ℕ). is_user (s.sock.ring.blocks t) ≡ false) (v.kernel_at ∙ round) h in
        cc (mine, other)
  ]

  -- Slots of other blocks that are full or empty.
  slot_before : (j : ℕ) → j < s.retired → s.retired < j + nr → slot ≢ j % nr
  slot_before j p q e =
      mod-apart nr j (s.retired - j) (omega arith) (omega arith)
        (ap (λ (t : ℕ). t % nr) (omega arith) ∙ sym v.kernel_at ∙ e)

  slot_behind : (j : ℕ) → s.retired < j → j < s.retired + nr → slot ≢ j % nr
  slot_behind j p q e =
      mod-apart nr s.retired (j - s.retired) (omega arith) (omega arith)
        (ap (λ (t : ℕ). t % nr) (omega arith) ∙ sym e ∙ v.kernel_at)

  -- The window grows by the packets of the block.
  window-after :
      (i : ℕ)
      → i ≤ s.retired
      → s.retired < i + nr
      → window s.sock.ifindex nr after i (s.retired + 1 - i)
        ≡ window s.sock.ifindex nr s.sock.ring.blocks i (s.retired - i)
          ++ packets_of s.sock.ifindex block
  window-after i p q =
      let n = s.retired - i in
      let one_more : s.retired + 1 - i ≡ suc n = omega arith in
      let last : (i + n) % nr ≡ slot = ap (λ (t : ℕ). t % nr) (omega arith) ∙ sym v.kernel_at in
      ap (λ (t : ℕ). window s.sock.ifindex nr after i t) one_more
      ∙ window-last s.sock.ifindex nr after i n
      ∙ (λ t.
          window-put s.sock.ifindex nr s.sock.ring.blocks slot block i n
            (λ j a b. slot_before j (omega arith) (omega arith)) t
          ++ packets_of s.sock.ifindex (after (last t)))
      ∙ (λ t.
          window s.sock.ifindex nr s.sock.ring.blocks i n
          ++ packets_of s.sock.ifindex (put_block_self s.sock.ring.blocks slot block t))

  abbrev filled : System
  filled = record s {
    sock = written block s.sock;
    retired = s.retired + 1;
    produced = s.produced ++ packets_of s.sock.ifindex block;
  }

  balance_after :
      (o : Option BlockCursor)
      → CursorFits s o
      → s.retired < s.released + nr
      → s.delivered ++ pending_at s.sock s.released s.retired o ≡ s.produced
      → s.delivered ++ pending_at (written block s.sock) s.released (s.retired + 1) o
        ≡ s.produced ++ packets_of s.sock.ifindex block
  balance_after none f q b =
      let w = window s.sock.ifindex nr s.sock.ring.blocks s.released (s.retired - s.released) in
      ap (λ (xs : List Packet). s.delivered ++ xs) (window-after s.released v.behind q)
      ∙ sym (append_assoc s.delivered w (packets_of s.sock.ifindex block))
      ∙ ap (λ (xs : List Packet). xs ++ packets_of s.sock.ifindex block) b
  balance_after (some c) (at, below, seen) q b =
      let rest =
        packets_from s.sock.ifindex (s.sock.ring.blocks c.base) (c.num_pkts - c.seen)
          c.next_offset in
      let w =
        window s.sock.ifindex nr s.sock.ring.blocks (s.released + 1)
          (s.retired - (s.released + 1)) in
      let kept : after c.base ≡ s.sock.ring.blocks c.base =
        put_block-other s.sock.ring.blocks slot block c.base
          (λ e. slot_before s.released below q (e ∙ at ∙ v.reader_at)) in
      (λ t.
        s.delivered
        ++ (packets_from s.sock.ifindex (kept t) (c.num_pkts - c.seen) c.next_offset
            ++ window-after (s.released + 1) (omega arith) (omega arith) t))
      ∙ ap (λ (xs : List Packet). s.delivered ++ xs)
          (sym (append_assoc rest w (packets_of s.sock.ifindex block)))
      ∙ sym (append_assoc s.delivered (rest ++ w) (packets_of s.sock.ifindex block))
      ∙ ap (λ (xs : List Packet). xs ++ packets_of s.sock.ifindex block) b

  fits_after : (o : Option BlockCursor) → CursorFits s o → CursorFits filled o
  fits_after none f = tt
  fits_after (some c) (at, below, seen) = (at, omega arith, seen)

  full_after :
      is_user block ≡ true
      → s.retired < s.released + nr
      → (i : ℕ) → s.released ≤ i
      → i < s.retired + 1
      → is_user (after (i % nr)) ≡ true
  full_after u q i a b = elim (Bool-cases (ltb i s.retired)) [
    | inl e ↦
        let old = ltb→lt i s.retired e in
        ap is_user
          (put_block-other s.sock.ring.blocks slot block (i % nr) (slot_before i old (omega arith)))
        ∙ v.full i a old
    | inr e ↦
        let last : i ≡ s.retired = omega (arith, ltb→le i s.retired e) in
        let here : i % nr ≡ slot = ap (λ (t : ℕ). t % nr) last ∙ sym v.kernel_at in
        ap (λ (t : ℕ). is_user (after t)) here
        ∙ ap is_user (put_block_self s.sock.ring.blocks slot block)
        ∙ u
  ]

  filled-Inv : is_user block ≡ true → s.retired < s.released + nr → Inv filled
  filled-Inv u q = record {
    some_blocks = v.some_blocks;
    reader_at = v.reader_at;
    kernel_at = ap (λ (t : ℕ). (t + 1) % nr) v.kernel_at ∙ mod-add-mod s.retired nr 1;
    behind = omega (arith, v.behind);
    within = omega arith;
    full = full_after u q;
    drained = λ i a b.
        ap is_user (
          put_block-other s.sock.ring.blocks slot block (i % nr)
            (slot_behind i (omega arith) (omega (arith, v.behind))))
        ∙ v.drained i (omega arith) b;
    cursor_fits = fits_after s.sock.cursor v.cursor_fits;
    balance = balance_after s.sock.cursor v.cursor_fits q v.balance;
  }

  written-retire :
      is_user (s.sock.ring.blocks slot) ≡ false → retire block s.sock ≡ written block s.sock
  written-retire h = rw h refl

  -- The kernel's step keeps the invariant.
  pub retires-Inv :
      is_user block ≡ true
      → is_user (s.sock.ring.blocks slot) ≡ false
      → Inv (kernel_retires block s)
  retires-Inv u h =
      subst (λ (k : AfPacketSocket). Inv (record (kernel_retires block s) { sock = k }))
        (sym (written-retire h)) (filled-Inv u (room h))
