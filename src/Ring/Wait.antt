-- ===== src/Ring/Wait.antt =====
-- `next_packet` as steps of the ring: what it returns is the next packet, and it blocks only where
-- every packet is delivered.
use netdump.Base.{
  length, arith, ℕ, zero, suc, ◌≤◌, ◌≡◌, refl, ◌∙◌, Bool, true, false, Option, none, some, List, [],
  ◌∷◌, ◌++◌, Bool-cases, inl, inr, if◌then◌else◌, ltb, ltb→lt, ltb→le,
}
use netdump.Base.Text.{codes}
use netdump.Core.{NetdumpError}
use netdump.Ring.Block.{is_user}
use netdump.Ring.Reader.{
  AfPacketSocket, BlockCursor, Poll, fails, wakes, retire_all, release, load, Waited, ready, failed,
  waiting, wait_for_block, Next, returned, error, blocked, out_of_fuel, after_wait, with_cursor,
  next_packet,
}
use netdump.Ring.System.{System}
use netdump.Ring.Gets.{
  IsKernel, supply, Gets, retire_all-SameReader, retire_all-Gets, load-Gets, release-Gets,
  take-Gets,
}

-- What the polls that are left satisfy: they are the kernel's, and no more than there were.
abbrev pub Fits : ℕ → List Poll → Type 0
Fits most polls = IsKernel polls × (length polls ≤ most)

module _ (s : System) (bound most : ℕ) where
  -- How a wait ends.
  abbrev Waits : Waited → Type 0
  Waits (ready k polls) =
      Gets s bound (supply polls) k []
      × (k.cursor ≡ none)
      × (is_user (k.ring.blocks k.current_block) ≡ true)
      × Fits most polls
  Waits (failed e k polls) = Gets s bound (supply polls) k []
  Waits (waiting k) =
      Gets s bound 0 k [] × (k.cursor ≡ none) × (is_user (k.ring.blocks k.current_block) ≡ false)

  wait_for_block-Waits :
      (polls : List Poll) (k : AfPacketSocket)
      → k.cursor ≡ none
      → Fits most polls
      → Gets s bound (supply polls) k []
      → Waits (wait_for_block polls k)
  unfolding wait_for_block
  wait_for_block-Waits [] k e p g = go (is_user (k.ring.blocks k.current_block)) refl
    where
      go :
          (b : Bool)
          → is_user (k.ring.blocks k.current_block) ≡ b
          → Waits (if b then ready k [] else waiting k)
      go true h = (g, e, h, p)
      go false h = (g, e, h)
  wait_for_block-Waits (fails m ∷ polls) k e p g = go (is_user (k.ring.blocks k.current_block)) refl
    where
      go :
          (b : Bool)
          → is_user (k.ring.blocks k.current_block) ≡ b
          → Waits (
              if b
              then ready k (fails m ∷ polls)
              else failed (NetdumpError.io (codes "poll: " ++ m)) k polls)
      go true h = (g, e, h, p)
      go false h = g
  wait_for_block-Waits (wakes filled ∷ polls) k e p g =
      go (is_user (k.ring.blocks k.current_block)) refl (
        wait_for_block-Waits polls (retire_all filled k) ((retire_all-SameReader k filled).0 ∙ e)
          (p.0.1, omega (arith, p.1)) (retire_all-Gets s bound (supply polls) k filled p.0.0 g))
    where
      go :
          (b : Bool)
          → is_user (k.ring.blocks k.current_block) ≡ b
          → Waits (wait_for_block polls (retire_all filled k))
          → Waits (
              if b
              then ready k (wakes filled ∷ polls)
              else wait_for_block polls (retire_all filled k))
      go true h r = (g, e, h, p)
      go false h r = r

  -- How `next_packet` ends, where its fuel lasts.
  abbrev pub Ends : Next → Type 0
  Ends (returned p k polls) = Gets s bound (supply polls) k (p ∷ []) × Fits most polls
  Ends (error e k polls) = Gets s bound (supply polls) k []
  Ends (blocked k) =
      Gets s bound 0 k [] × (k.cursor ≡ none) × (is_user (k.ring.blocks k.current_block) ≡ false)
  Ends out_of_fuel = Unit

  after_wait-Ends :
      (again : List Poll → AfPacketSocket → Next) (w : Waited)
      → ((polls : List Poll) (k : AfPacketSocket)
          → Fits most polls
          → Gets s bound (supply polls) k []
          → Ends (again polls k))
      → Waits w
      → Ends (after_wait again w)
  after_wait-Ends again (ready k polls) h (g, e, u, p) =
      h polls (load k) p (load-Gets s bound (supply polls) k e u g)
  after_wait-Ends again (failed m k polls) h g = g
  after_wait-Ends again (waiting k) h w = w

  pub next_packet-Ends :
      (fuel : ℕ) (polls : List Poll) (k : AfPacketSocket)
      → Fits most polls
      → Gets s bound (supply polls) k []
      → Ends (next_packet fuel polls k)
  unfolding next_packet
  next_packet-Ends zero polls k p g = tt
  next_packet-Ends (suc fuel) polls k p g = go k.cursor refl (next_packet-Ends fuel)
    where
      go :
          (o : Option BlockCursor)
          → k.cursor ≡ o
          → ((q : List Poll) (m : AfPacketSocket)
              → Fits most q
              → Gets s bound (supply q) m []
              → Ends (next_packet fuel q m))
          → Ends (with_cursor (next_packet fuel) o polls k)
      go none e ih =
          after_wait-Ends (next_packet fuel) (wait_for_block polls k) ih
            (wait_for_block-Waits polls k e p g)
      go (some c) e ih = elim (Bool-cases (ltb c.seen c.num_pkts)) [
        | inl h ↦ rw h (take-Gets s bound (supply polls) k c e (ltb→lt c.seen c.num_pkts h) g, p)
        | inr h ↦ rw h (
            after_wait-Ends (next_packet fuel) (wait_for_block polls (release c k)) ih (
              wait_for_block-Waits polls (release c k) refl p
                (release-Gets s bound (supply polls) k c e (ltb→le c.seen c.num_pkts h) g)))
      ]
