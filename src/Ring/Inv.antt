-- ===== src/Ring/Inv.antt =====
-- What holds of a ring between two steps: which blocks are whose, and where each packet is that the
-- kernel produced.
use netdump.Base.{
  ℕ, ◌+◌, ◌-◌, ◌%◌, ◌≤◌, ◌<◌, ◌≡◌, sym, ap, ◌∙◌, subst, true, false, Option, none, some, List, ◌++◌,
  arith,
}
use native.Mathlib.Nat.{mod-eq_of_lt}
use netdump.Core.{Packet}
use netdump.Ring.Block.{is_user, packets_from}
use netdump.Ring.Reader.{AfPacketSocket, BlockCursor}
use netdump.Ring.System.{System, IsOpened}
use netdump.Ring.Slots.{window}

-- The packets of the cursor's block that are not read yet, then those of the blocks behind it.
abbrev pub pending_at : AfPacketSocket → ℕ → ℕ → Option BlockCursor → List Packet
pending_at s released retired none =
    window s.ifindex s.block_nr s.ring.blocks released (retired - released)
pending_at s released retired (some c) =
    packets_from s.ifindex (s.ring.blocks c.base) (c.num_pkts - c.seen) c.next_offset
    ++ window s.ifindex s.block_nr s.ring.blocks (released + 1) (retired - (released + 1))

abbrev pub pending : System → List Packet
pending s = pending_at s.sock s.released s.retired s.sock.cursor

-- The cursor is at the current block, which is full, and not past the number of its packets.
abbrev pub CursorFits : System → Option BlockCursor → Type 0
CursorFits s none = Unit
CursorFits s (some c) =
    (c.base ≡ s.sock.current_block) × (s.released < s.retired) × (c.seen ≤ c.num_pkts)

pub record Inv (s : System) : Type 0 where
  pub some_blocks : 0 < s.sock.block_nr
  pub reader_at : s.sock.current_block ≡ s.released % s.sock.block_nr
  pub kernel_at : s.sock.ring.kernel_block ≡ s.retired % s.sock.block_nr
  pub behind : s.released ≤ s.retired
  pub within : s.retired ≤ s.released + s.sock.block_nr
  pub full :
      (i : ℕ)
      → s.released ≤ i
      → i < s.retired
      → is_user (s.sock.ring.blocks (i % s.sock.block_nr)) ≡ true
  pub drained :
      (i : ℕ)
      → s.retired ≤ i
      → i < s.released + s.sock.block_nr
      → is_user (s.sock.ring.blocks (i % s.sock.block_nr)) ≡ false
  pub cursor_fits : CursorFits s s.sock.cursor
  pub balance : s.delivered ++ pending s ≡ s.produced

pub opened-Inv : (s : System) → IsOpened s → Inv s
opened-Inv s o = record {
  some_blocks = o.some_blocks;
  reader_at = o.first_block ∙ sym (zero_at o.none_released);
  kernel_at = o.first_filled ∙ sym (zero_at o.none_retired);
  behind = omega (arith, o.none_retired, o.none_released);
  within = omega (arith, o.none_retired);
  full = λ i a b. absurd (omega (arith, o.none_retired));
  drained = λ i a b. o.all_kernel (i % s.sock.block_nr);
  cursor_fits = subst (CursorFits s) (sym o.no_cursor) tt;
  balance =
      (λ t.
        o.none_delivered t
        ++ pending_at s.sock (o.none_released t) (o.none_retired t) (o.no_cursor t))
      ∙ sym o.none_produced;
}
  where
    zero_at : {n : ℕ} → n ≡ 0 → n % s.sock.block_nr ≡ 0
    zero_at e = ap (λ (t : ℕ). t % s.sock.block_nr) e ∙ mod-eq_of_lt o.some_blocks
