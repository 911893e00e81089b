-- ===== src/Ring/Live.antt =====
-- `next_packet` comes to an end on whatever the polls bring, and how.
use netdump.Base.{
  ℕ, ◌+◌, ◌*◌, ◌≤◌, ◌<◌, ◌≡◌, refl, sym, ap, ◌∙◌, Option, none, some, List, [], ◌∷◌, ◌++◌, arith,
  length,
}
use native.Mathlib.Nat.{mod-lt}
use mathlib.Core.List.{append_assoc, append-nil}
use netdump.Core.{Packet}
use netdump.Ring.Block.{is_user}
use netdump.Ring.Reader.{
  AfPacketSocket, BlockCursor, Poll, Next, returned, error, blocked, out_of_fuel, next_packet,
}
use netdump.Ring.System.{System, Reach, IsOpened}
use netdump.Ring.Inv.{Inv, CursorFits, pending, opened-Inv}
use netdump.Ring.Fifo.{Reach-Inv, nothing_pending}
use netdump.Ring.Gets.{IsKernel, supply, Gets, stays}
use netdump.Ring.Wait.{Fits, Ends, next_packet-Ends}
use netdump.Ring.Fuel.{rounds-le, CursorIn, Done, next_packet-Done}

-- What a call leaves of the system that it was made in: it returns the next packet that the kernel
-- produced and nobody has had, or an error and no packet; or it waits, and then every packet that
-- the kernel produced had been delivered before the call.
abbrev pub Delivers : System → Next → Type 0
Delivers s (returned p sock polls) =
    (t : System) × Reach s t × (t.sock ≡ sock) × (t.produced ≡ s.delivered ++ (p ∷ pending t))
Delivers s (error e sock polls) =
    (t : System) × Reach s t × (t.sock ≡ sock) × (t.produced ≡ s.delivered ++ pending t)
Delivers s (blocked sock) = (t : System) × Reach s t × (t.sock ≡ sock) × (t.produced ≡ s.delivered)
Delivers s out_of_fuel = ⊥

cursor_in : (s : System) → Inv s → CursorIn s.sock s.sock.cursor
cursor_in s v = go s.sock.cursor v.cursor_fits
  where
    go : (o : Option BlockCursor) → CursorFits s o → CursorIn s.sock o
    go none f = tt
    go (some c) (at, below, seen) =
        let slot = at ∙ v.reader_at in
        (
          omega (arith, slot, mod-lt s.released {m = s.sock.block_nr} v.some_blocks),
          ap (λ (k : ℕ). is_user (s.sock.ring.blocks k)) slot
              ∙ v.full s.released (omega arith) below,
        )

-- How a call ends that is made in a system: what is delivered there, and how many packets are still to
-- come. Where it waits, everything is delivered.
abbrev pub Serves : System → ℕ → ℕ → Next → Type 0
Serves t bound most (returned p k polls) = Gets t bound (supply polls) k (p ∷ []) × Fits most polls
Serves t bound most (error e k polls) = Gets t bound (supply polls) k []
Serves t bound most (blocked k) = (g : Gets t bound 0 k []) × (g.to.delivered ≡ g.to.produced)
Serves t bound most out_of_fuel = ⊥

pub next_packet-Serves :
    {s t : System} (fuel bound : ℕ) (polls : List Poll)
    → IsOpened s
    → Reach s t
    → IsKernel polls
    → (length polls + 1) * (t.sock.block_nr + 1) + 1 < fuel
    → length t.produced + supply polls ≤ bound
    → Serves t bound (length polls) (next_packet fuel polls t.sock)
next_packet-Serves {s} {t} fuel bound polls o r p h b =
    let v = Reach-Inv (opened-Inv s o) r in
    let below = mod-lt t.released {m = t.sock.block_nr} v.some_blocks in
    go (next_packet fuel polls t.sock)
      (next_packet-Done t.sock.block_nr v.some_blocks fuel polls t.sock (cursor_in t v) refl
        (omega (arith, v.reader_at, below))
        (omega (arith, rounds-le t.sock.block_nr polls t.sock.ring.blocks)))
      (next_packet-Ends t bound (length polls) fuel polls t.sock (p, omega arith)
        (stays t bound (supply polls) b))
  where
    go : (n : Next) → Done n → Ends t bound (length polls) n → Serves t bound (length polls) n
    go (returned p' k q) d e = e
    go (error e k q) d g = g
    go (blocked k) d (g, e, u) = (
      g,
      nothing_pending g.to (Reach-Inv (Reach-Inv (opened-Inv s o) r) g.reach)
          (ap (λ (m : AfPacketSocket). m.cursor) g.at ∙ e)
          (ap (λ (m : AfPacketSocket). is_user (m.ring.blocks m.current_block)) g.at ∙ u),
    )
    go out_of_fuel d e = elim d [ ]

-- From every state that an opened ring comes to, `next_packet` ends, whatever the polls bring: with
-- the next packet in order, with an error and no packet lost, or still waiting for a poll, and then
-- all that the kernel had produced is delivered. More rounds than blocks for each poll are enough.
pub next_packet-Delivers :
    {s t : System} (fuel : ℕ) (polls : List Poll)
    → IsOpened s
    → Reach s t
    → IsKernel polls
    → (length polls + 1) * (t.sock.block_nr + 1) + 1 < fuel
    → Delivers t (next_packet fuel polls t.sock)
next_packet-Delivers {s} {t} fuel polls o r p h =
    go (next_packet fuel polls t.sock) (next_packet-Serves fuel bound polls o r p h (omega arith))
  where
    bound : ℕ
    bound = length t.produced + supply polls

    whole :
        {left : ℕ} {k : AfPacketSocket} {ps : List Packet}
        → (g : Gets t bound left k ps) → g.to.produced ≡ (t.delivered ++ ps) ++ pending g.to
    whole g =
        sym (Reach-Inv (Reach-Inv (opened-Inv s o) r) g.reach).balance
        ∙ ap (λ (xs : List Packet). xs ++ pending g.to) g.got

    go : (n : Next) → Serves t bound (length polls) n → Delivers t n
    go (returned p' k q) (g, f) =
        (g.to, g.reach, g.at, whole g ∙ append_assoc t.delivered (p' ∷ []) (pending g.to))
    go (error e k q) g = (
      g.to,
      g.reach,
      g.at,
      whole g ∙ ap (λ (xs : List Packet). xs ++ pending g.to) (append-nil t.delivered),
    )
    go (blocked k) (g, all) = (g.to, g.reach, g.at, sym all ∙ g.got ∙ append-nil t.delivered)
    go out_of_fuel d = elim d [ ]
