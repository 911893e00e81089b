-- ===== src/Ring/Moves.antt =====
-- The three moves of the reader keep the invariant.
use netdump.Base.{
  ℕ, suc, ◌+◌, ◌-◌, ◌%◌, ◌≤◌, ◌<◌, ◌≡◌, ◌≢◌, refl, sym, ap, ◌∙◌, subst, true, false, Option, none,
  some, List, [], ◌∷◌, ◌++◌, ltb, arith,
}
use netdump.Core.{Packet}
use netdump.Ring.Block.{tp_status_kernel, Block, is_user, packets_from, packets_of}
use netdump.Ring.Reader.{BlockCursor, put_block, take_packet}
use netdump.Ring.System.{System, reader_takes, reader_releases, reader_loads}
use netdump.Ring.Slots.{mod-apart, window, put_block_self, put_block-other, window-put}
use mathlib.Core.List.{append_assoc}
use netdump.Ring.Inv.{pending_at, pending, CursorFits, Inv}
use netdump.Base.{Bool-cases, ltb→lt, ltb→le, inl, inr}
use native.Mathlib.Nat.{mod-add-mod, add-mod_right}

module _ (s : System) (v : Inv s) where
  abbrev nr : ℕ
  nr = s.sock.block_nr

  -- The invariant's facts on the cursor, for a cursor that is known.
  fits_at : {o : Option BlockCursor} → s.sock.cursor ≡ o → CursorFits s o
  fits_at e = subst (CursorFits s) e v.cursor_fits

  balance_at :
      {o : Option BlockCursor}
      → s.sock.cursor ≡ o
      → s.delivered ++ pending_at s.sock s.released s.retired o ≡ s.produced
  balance_at e =
      subst
        (λ (o : Option BlockCursor).
          s.delivered ++ pending_at s.sock s.released s.retired o ≡ s.produced)
        e v.balance

  module _ (c : BlockCursor) (e : s.sock.cursor ≡ some c) where
    taken_packets :
        c.seen < c.num_pkts
        → (s.delivered ++ ((take_packet c s.sock).0 ∷ [])) ++ pending (reader_takes c s)
          ≡ s.produced
    unfolding packets_from
    taken_packets h =
        let block = s.sock.ring.blocks c.base in
        let w =
          window s.sock.ifindex nr s.sock.ring.blocks (s.released + 1)
            (s.retired - (s.released + 1)) in
        let one_more : suc (c.num_pkts - (c.seen + 1)) ≡ c.num_pkts - c.seen = omega arith in
        append_assoc s.delivered ((take_packet c s.sock).0 ∷ []) (pending (reader_takes c s))
        ∙ ap (λ (k : ℕ). s.delivered ++ (packets_from s.sock.ifindex block k c.next_offset ++ w))
            one_more
        ∙ balance_at e

    pub takes-Inv : c.seen < c.num_pkts → Inv (reader_takes c s)
    takes-Inv h =
        let (at, below, seen) = fits_at e in
        record {
          some_blocks = v.some_blocks;
          reader_at = v.reader_at;
          kernel_at = v.kernel_at;
          behind = v.behind;
          within = v.within;
          full = v.full;
          drained = v.drained;
          cursor_fits = (at, below, omega arith);
          balance = taken_packets h;
        }

    abbrev given_back : Block
    given_back = record (s.sock.ring.blocks c.base) { block_status = tp_status_kernel }

    abbrev after : ℕ → Block
    after = put_block s.sock.ring.blocks c.base given_back

    base_at : c.base ≡ s.released % nr
    base_at = (fits_at e).0 ∙ v.reader_at

    base_apart : (j : ℕ) → s.released < j → j < s.released + nr → c.base ≢ j % nr
    base_apart j p q f =
        mod-apart nr s.released (j - s.released) (omega arith) (omega arith)
          (ap (λ (t : ℕ). t % nr) (omega arith) ∙ sym f ∙ base_at)

    released_packets :
        c.num_pkts ≤ c.seen → s.delivered ++ pending (reader_releases c s) ≡ s.produced
    unfolding packets_from
    released_packets h =
        let block = s.sock.ring.blocks c.base in
        let n = s.retired - (s.released + 1) in
        let w = window s.sock.ifindex nr s.sock.ring.blocks (s.released + 1) n in
        let none_left : 0 ≡ c.num_pkts - c.seen = omega arith in
        ap (λ (xs : List Packet). s.delivered ++ xs)
          (window-put s.sock.ifindex nr s.sock.ring.blocks c.base given_back (s.released + 1) n
            (λ j a b. base_apart j (omega arith) (omega (arith, v.within, (fits_at e).1))))
        ∙ ap (λ (k : ℕ). s.delivered ++ (packets_from s.sock.ifindex block k c.next_offset ++ w))
            none_left
        ∙ balance_at e

    drained_after :
        (i : ℕ) → s.retired ≤ i → i < s.released + 1 + nr → is_user (after (i % nr)) ≡ false
    drained_after i a b = elim (Bool-cases (ltb i (s.released + nr))) [
      | inl f ↦
          let old = ltb→lt i (s.released + nr) f in
          ap is_user (
            put_block-other s.sock.ring.blocks c.base given_back (i % nr)
              (base_apart i (omega (arith, (fits_at e).1)) old))
          ∙ v.drained i a old
      | inr f ↦
          let last : i ≡ s.released + nr = omega (arith, ltb→le i (s.released + nr) f) in
          let there : i % nr ≡ c.base =
            ap (λ (t : ℕ). t % nr) last ∙ add-mod_right s.released nr ∙ sym base_at in
          ap (λ (t : ℕ). is_user (after t)) there
          ∙ ap is_user (put_block_self s.sock.ring.blocks c.base given_back)
    ]

    pub releases-Inv : c.num_pkts ≤ c.seen → Inv (reader_releases c s)
    releases-Inv h = record {
      some_blocks = v.some_blocks;
      reader_at = ap (λ (t : ℕ). (t + 1) % nr) v.reader_at ∙ mod-add-mod s.released nr 1;
      kernel_at = v.kernel_at;
      behind = omega (arith, (fits_at e).1);
      within = omega (arith, v.within);
      full = λ i a b.
          ap is_user (
            put_block-other s.sock.ring.blocks c.base given_back (i % nr)
              (base_apart i (omega arith) (omega (arith, v.within))))
          ∙ v.full i (omega arith) b;
      drained = drained_after;
      cursor_fits = tt;
      balance = released_packets h;
    }

  -- A full current block is one that the kernel retired.
  current_retired :
      is_user (s.sock.ring.blocks s.sock.current_block) ≡ true → s.released < s.retired
  current_retired u = elim (Bool-cases (ltb s.released s.retired)) [
    | inl f ↦ ltb→lt s.released s.retired f
    | inr f ↦
        let none_full =
          v.drained s.released (ltb→le s.released s.retired f) (omega (arith, v.some_blocks)) in
        let mine = subst (λ (t : ℕ). is_user (s.sock.ring.blocks t) ≡ true) v.reader_at u in
        cc (none_full, mine)
  ]

  loaded_packets :
      s.sock.cursor ≡ none
      → s.released < s.retired
      → s.delivered ++ pending (reader_loads s) ≡ s.produced
  loaded_packets e h =
      let w = window s.sock.ifindex nr s.sock.ring.blocks in
      let one_more : suc (s.retired - (s.released + 1)) ≡ s.retired - s.released = omega arith in
      let block = s.sock.ring.blocks s.sock.current_block in
      let all : block.num_pkts - 0 ≡ block.num_pkts = omega arith in
      ap
        (λ (k : ℕ).
          s.delivered
          ++ (packets_from s.sock.ifindex block k block.offset_to_first_pkt
              ++ w (s.released + 1) (s.retired - (s.released + 1))))
        all
      ∙ ap
          (λ (t : ℕ).
            s.delivered
            ++ (packets_of s.sock.ifindex (s.sock.ring.blocks t)
                ++ w (s.released + 1) (s.retired - (s.released + 1))))
          v.reader_at
      ∙ ap (λ (k : ℕ). s.delivered ++ w s.released k) one_more
      ∙ balance_at e

  pub loads-Inv :
      s.sock.cursor ≡ none
      → is_user (s.sock.ring.blocks s.sock.current_block) ≡ true
      → Inv (reader_loads s)
  loads-Inv e u = record {
    some_blocks = v.some_blocks;
    reader_at = v.reader_at;
    kernel_at = v.kernel_at;
    behind = v.behind;
    within = v.within;
    full = v.full;
    drained = v.drained;
    cursor_fits = (refl, current_retired u, omega arith);
    balance = loaded_packets e (current_retired u);
  }
