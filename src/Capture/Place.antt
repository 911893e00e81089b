-- ===== src/Capture/Place.antt =====
-- What is still to come of the packets that the polls bring, through each call of `next_packet` of
-- crates/netdump-afpacket/src/lib.rs.
use netdump.Base.{
  ℕ, zero, suc, ◌≤◌, ◌<◌, ◌≡◌, refl, sym, ap, ◌∙◌, Bool, true, false, Option, none, some, List, [],
  ◌∷◌, ◌++◌, if◌then◌else◌, length, ltb, ltb→lt, ltb→le, arith,
}
use netdump.Base.Text.{codes}
use netdump.Core.{Packet, NetdumpError}
use netdump.Ring.Block.{Block, is_user}
use netdump.Ring.Reader.{
  AfPacketSocket, BlockCursor, Poll, fails, wakes, retire_all, release, load, take_packet, Waited,
  ready, failed, waiting, wait_for_block, Next, returned, error, blocked, out_of_fuel, after_wait,
  with_cursor, next_packet,
}
use netdump.Ring.System.{
  System, Step, takes, releases, loads, Reach, next, IsOpened, reader_takes, reader_releases,
  reader_loads,
}
use netdump.Ring.Inv.{pending}
use netdump.Ring.Gets.{IsKernel}
use netdump.Ring.Ahead.{
  packets_of_all, loads-pending, releases-pending, takes-pending, nothing_ahead, retire_all-Retired,
}
use netdump.Capture.Loop.{Received, received, failure}
use netdump.Capture.Stream.{arrived, stream, FitsRing}

abbrev pub Total : Type 0
Total = List (Received Packet NetdumpError)

module _ (s : System) (opened : IsOpened s) (most : ℕ) where
  -- What is still to come: the packets in the ring, then what the polls bring.
  abbrev pub ahead : System → List Poll → Total
  ahead t polls = arrived (pending t) ++ stream s.sock.ifindex polls

  abbrev pub Fits : List Poll → Type 0
  Fits polls = IsKernel polls × FitsRing s.sock.block_nr polls × (length polls ≤ most)

  pub same_ahead :
      {ps qs : List Packet} (polls : List Poll)
      → ps ≡ qs
      → arrived ps ++ stream s.sock.ifindex polls ≡ arrived qs ++ stream s.sock.ifindex polls
  same_ahead polls h = ap (λ (xs : List Packet). arrived xs ++ stream s.sock.ifindex polls) h

  pub record Place (total : Total) (polls : List Poll) (k : AfPacketSocket) : Type 0 where
    pub to : System
    pub reach : Reach s to
    pub at : to.sock ≡ k
    pub index : to.sock.ifindex ≡ s.sock.ifindex
    pub size : to.sock.block_nr ≡ s.sock.block_nr
    pub rest : ahead to polls ≡ total
    pub fits : Fits polls

  abbrev WaitPlace : Total → Waited → Type 0
  WaitPlace total (ready k polls) =
      Place total polls k × (k.cursor ≡ none) × (is_user (k.ring.blocks k.current_block) ≡ true)
  WaitPlace total (failed e k polls) = total ≡ failure e ∷ []
  WaitPlace total (waiting k) = total ≡ []

  -- At a block that is the kernel's, only the polls have something to bring.
  at_kernel :
      {total : Total} {polls : List Poll} {k : AfPacketSocket}
      → k.cursor ≡ none
      → (g : Place total polls k) → is_user (k.ring.blocks k.current_block) ≡ false
      → (pending g.to ≡ []) × (g.to.retired ≡ g.to.released)
  at_kernel e g h =
      nothing_ahead s opened g.reach (ap (λ (m : AfPacketSocket). m.cursor) g.at ∙ e)
        (ap (λ (m : AfPacketSocket). is_user (m.ring.blocks m.current_block)) g.at ∙ h)

  only_polls :
      {total : Total} {polls : List Poll} {k : AfPacketSocket}
      → (g : Place total polls k) → pending g.to ≡ []
      → total ≡ stream s.sock.ifindex polls
  only_polls {polls = polls} g h =
      sym g.rest ∙ ap (λ (ps : List Packet). arrived ps ++ stream s.sock.ifindex polls) h

  -- The blocks of a poll.
  wakes-Place :
      {total : Total} (filled : List Block) (polls : List Poll) (k : AfPacketSocket)
      → k.cursor ≡ none
      → (g : Place total (wakes filled ∷ polls) k) → is_user (k.ring.blocks k.current_block) ≡ false
      → Place total polls (retire_all filled k) × ((retire_all filled k).cursor ≡ none)
  wakes-Place {total} filled polls k e g h =
      let (none_left, same) = at_kernel e g h in
      let ((user, users), (small, smalls), few) = g.fits in
      let r =
        retire_all-Retired s opened filled g.reach user (omega (arith, same, small, g.size)) in
      let at = r.at ∙ ap (retire_all filled) g.at in
      (
        record {
          to = r.to;
          reach = r.reach;
          at = at;
          index = r.index ∙ g.index;
          size = r.size ∙ g.size;
          rest =
              ap (λ (ps : List Packet). arrived ps ++ stream s.sock.ifindex polls)
                (r.added ∙ (λ i. none_left i ++ packets_of_all (g.index i) filled))
              ∙ sym (only_polls g none_left);
          fits = (users, smalls, omega (arith, few));
        },
        sym (ap (λ (m : AfPacketSocket). m.cursor) at)
            ∙ r.cursor
            ∙ ap (λ (m : AfPacketSocket). m.cursor) g.at
            ∙ e,
      )

  wait_for_block-Place :
      {total : Total} (polls : List Poll) (k : AfPacketSocket)
      → k.cursor ≡ none
      → Place total polls k
      → WaitPlace total (wait_for_block polls k)
  unfolding wait_for_block
  wait_for_block-Place {total} [] k e g = go (is_user (k.ring.blocks k.current_block)) refl
    where
      go :
          (b : Bool)
          → is_user (k.ring.blocks k.current_block) ≡ b
          → WaitPlace total (if b then ready k [] else waiting k)
      go true h = (g, e, h)
      go false h = only_polls g (at_kernel e g h).0
  wait_for_block-Place {total} (fails m ∷ polls) k e g =
      go (is_user (k.ring.blocks k.current_block)) refl
    where
      go :
          (b : Bool)
          → is_user (k.ring.blocks k.current_block) ≡ b
          → WaitPlace total (
              if b
              then ready k (fails m ∷ polls)
              else failed (NetdumpError.io (codes "poll: " ++ m)) k polls)
      go true h = (g, e, h)
      go false h = only_polls g (at_kernel e g h).0
  wait_for_block-Place {total} (wakes filled ∷ polls) k e g =
      go (is_user (k.ring.blocks k.current_block)) refl (λ h.
        let (p, c) = wakes-Place filled polls k e g h in
        wait_for_block-Place polls (retire_all filled k) c p)
    where
      go :
          (b : Bool)
          → is_user (k.ring.blocks k.current_block) ≡ b
          → (is_user (k.ring.blocks k.current_block) ≡ false
              → WaitPlace total (wait_for_block polls (retire_all filled k)))
          → WaitPlace total (
              if b
              then ready k (wakes filled ∷ polls)
              else wait_for_block polls (retire_all filled k))
      go true h w = (g, e, h)
      go false h w = w h

  -- How a call ends, where so much is still to come.
  abbrev pub NextPlace : Total → Next → Type 0
  NextPlace total (returned p k polls) =
      (later : Total) × (total ≡ received p ∷ later) × Place later polls k
  NextPlace total (error e k polls) = total ≡ failure e ∷ []
  NextPlace total (blocked k) = total ≡ []
  NextPlace total out_of_fuel = Unit

  after_wait-Place :
      {total : Total} (again : List Poll → AfPacketSocket → Next) (w : Waited)
      → ((polls : List Poll) (k : AfPacketSocket)
          → Place total polls k
          → NextPlace total (again polls k))
      → WaitPlace total w
      → NextPlace total (after_wait again w)
  after_wait-Place again (ready k polls) ih (g, e, h) =
      let cursor = ap (λ (m : AfPacketSocket). m.cursor) g.at ∙ e in
      let user = ap (λ (m : AfPacketSocket). is_user (m.ring.blocks m.current_block)) g.at ∙ h in
      let st : Step g.to (reader_loads g.to) = loads cursor user in
      ih polls (load k) (record {
        to = reader_loads g.to;
        reach = next g.reach st;
        at = ap load g.at;
        index = g.index;
        size = g.size;
        rest = same_ahead polls (loads-pending s opened g.reach st) ∙ g.rest;
        fits = g.fits;
      })
  after_wait-Place again (failed e k polls) ih h = h
  after_wait-Place again (waiting k) ih h = h

  module _ {total : Total} (c : BlockCursor) (polls : List Poll) (k : AfPacketSocket)
      (e : k.cursor ≡ some c) (g : Place total polls k) where
    cursor_at : g.to.sock.cursor ≡ some c
    cursor_at = ap (λ (m : AfPacketSocket). m.cursor) g.at ∙ e

    takes-Place :
        c.seen < c.num_pkts
        → (later : Total) × (total ≡ received (take_packet c k).0 ∷ later)
          × Place later polls (take_packet c k).1
    takes-Place less =
        let st : Step g.to (reader_takes c g.to) = takes c cursor_at less in
        let later = ahead (reader_takes c g.to) polls in
        (
          later,
          sym g.rest
              ∙ same_ahead polls (takes-pending s opened c g.reach st)
              ∙ ap (λ (m : AfPacketSocket). received (take_packet c m).0 ∷ later) g.at,
          record {
            to = reader_takes c g.to;
            reach = next g.reach st;
            at = ap (λ (m : AfPacketSocket). (take_packet c m).1) g.at;
            index = g.index;
            size = g.size;
            rest = refl;
            fits = g.fits;
          },
        )

    releases-Place : c.num_pkts ≤ c.seen → Place total polls (release c k)
    releases-Place less =
        let st : Step g.to (reader_releases c g.to) = releases c cursor_at less in
        record {
          to = reader_releases c g.to;
          reach = next g.reach st;
          at = ap (release c) g.at;
          index = g.index;
          size = g.size;
          rest = same_ahead polls (releases-pending s opened c g.reach st) ∙ g.rest;
          fits = g.fits;
        }

  with_cursor-Place :
      {total : Total} (again : List Poll → AfPacketSocket → Next) (o : Option BlockCursor)
      (polls : List Poll) (k : AfPacketSocket)
      → ((polls' : List Poll) (m : AfPacketSocket)
          → Place total polls' m
          → NextPlace total (again polls' m))
      → k.cursor ≡ o
      → Place total polls k
      → NextPlace total (with_cursor again o polls k)
  with_cursor-Place again none polls k ih e g =
      after_wait-Place again (wait_for_block polls k) ih (wait_for_block-Place polls k e g)
  with_cursor-Place {total} again (some c) polls k ih e g = go (ltb c.seen c.num_pkts) refl
    where
      go :
          (b : Bool)
          → ltb c.seen c.num_pkts ≡ b
          → NextPlace total (
              if b
              then (let (packet, k') = take_packet c k in returned packet k' polls)
              else after_wait again (wait_for_block polls (release c k)))
      go true h = takes-Place c polls k e g (ltb→lt c.seen c.num_pkts h)
      go false h = after_wait-Place again (wait_for_block polls (release c k)) ih (
          wait_for_block-Place polls (release c k) refl
            (releases-Place c polls k e g (ltb→le c.seen c.num_pkts h)))

  pub next_packet-Place :
      {total : Total} (fuel : ℕ) (polls : List Poll) (k : AfPacketSocket)
      → Place total polls k
      → NextPlace total (next_packet fuel polls k)
  unfolding next_packet
  next_packet-Place zero polls k g = tt
  next_packet-Place (suc fuel) polls k g =
      with_cursor-Place (next_packet fuel) k.cursor polls k (next_packet-Place fuel) refl g
