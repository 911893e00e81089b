-- ===== src/Ring/Gets.antt =====
-- Moves of the reader and the kernel from a state of the ring on: what they deliver, and how many
-- packets are produced.
use netdump.Base.{
  ℕ, zero, suc, ◌+◌, ◌≤◌, ◌<◌, ◌≡◌, refl, sym, ap, ◌∙◌, subst, Bool, true, false, none, some, List,
  [], ◌∷◌, ◌++◌, if◌then◌else◌, arith, length, length-append,
}
use mathlib.Core.List.{append-nil}
use netdump.Core.{Packet}
use netdump.Ring.Block.{Block, is_user, packets_from, packets_of, next_at}
use netdump.Ring.Reader.{
  AfPacketSocket, BlockCursor, Poll, fails, wakes, retire, retire_all, written, take_packet,
  release, load,
}
use netdump.Ring.System.{
  System, Step, retires, takes, releases, loads, Reach, here, next, kernel_retires, reader_takes,
  reader_releases, reader_loads,
}

-- Every block that the kernel hands over has the status that says so.
abbrev pub AllUser : List Block → Type 0
AllUser [] = Unit
AllUser (block ∷ blocks) = (is_user block ≡ true) × AllUser blocks

abbrev pub IsKernel : List Poll → Type 0
IsKernel [] = Unit
IsKernel (fails e ∷ polls) = IsKernel polls
IsKernel (wakes filled ∷ polls) = AllUser filled × IsKernel polls

-- The packets of blocks, and those that the polls bring.
abbrev pub packets_in : List Block → ℕ
packets_in [] = 0
packets_in (block ∷ blocks) = block.num_pkts + packets_in blocks

abbrev pub supply : List Poll → ℕ
supply [] = 0
supply (fails e ∷ polls) = supply polls
supply (wakes filled ∷ polls) = packets_in filled + supply polls

pub length-packets_from :
    (ifindex n : ℕ) (block : Block) (offset : ℕ) → length (packets_from ifindex block n offset) ≡ n
unfolding packets_from
length-packets_from ifindex zero block offset = refl
length-packets_from ifindex (suc n) block offset =
    omega (arith, length-packets_from ifindex n block (next_at block offset))

-- A system with that socket, reached from `s`, with so many more packets delivered, in which no more
-- than `bound` packets are produced with `left` more to come.
pub record Gets (s : System) (bound left : ℕ) (sock : AfPacketSocket) (packets : List Packet)
    : Type 0 where
  pub to : System
  pub reach : Reach s to
  pub at : to.sock ≡ sock
  pub got : to.delivered ≡ s.delivered ++ packets
  pub made : length to.produced + left ≤ bound

pub stays :
    (s : System) (bound left : ℕ) → length s.produced + left ≤ bound → Gets s bound left s.sock []
stays s bound left h = record {
  to = s;
  reach = here;
  at = refl;
  got = sym (append-nil s.delivered);
  made = h;
}

-- What no retired block changes.
abbrev pub SameReader : AfPacketSocket → AfPacketSocket → Type 0
SameReader k m =
    (k.cursor ≡ m.cursor) × (k.block_nr ≡ m.block_nr) × (k.current_block ≡ m.current_block)

retire-SameReader : (k : AfPacketSocket) (block : Block) → SameReader (retire block k) k
retire-SameReader k block = go (is_user (k.ring.blocks k.ring.kernel_block))
  where
    go : (b : Bool) → SameReader (if b then k else written block k) k
    go true = (refl, refl, refl)
    go false = (refl, refl, refl)

pub retire_all-SameReader :
    (k : AfPacketSocket) (filled : List Block) → SameReader (retire_all filled k) k
retire_all-SameReader k [] = (refl, refl, refl)
retire_all-SameReader k (block ∷ filled) =
    let (a, b, c) = retire_all-SameReader (retire block k) filled in
    let (d, e, f) = retire-SameReader k block in (a ∙ d, b ∙ e, c ∙ f)

module _ (s : System) (bound : ℕ) where
  -- One more step of the reader or the kernel.
  Gets-Step :
      (left rest : ℕ) (k : AfPacketSocket) (f : System → System) (packets : List Packet)
      → (g : Gets s bound left k []) → Step g.to (f g.to)
      → (f g.to).sock ≡ (let r : AfPacketSocket = (f (record g.to { sock = k })).sock in r)
      → (f g.to).delivered ≡ g.to.delivered ++ packets
      → length (f g.to).produced + rest ≤ length g.to.produced + left
      → Gets s bound rest (f (record g.to { sock = k })).sock packets
  Gets-Step left rest k f packets g st same more less = record {
    to = f g.to;
    reach = next g.reach st;
    at = same;
    got = more ∙ ap (λ (xs : List Packet). xs ++ packets) (g.got ∙ append-nil s.delivered);
    made = omega (arith, g.made, less);
  }

  pub retire-Gets :
      (left : ℕ) (k : AfPacketSocket) (block : Block)
      → is_user block ≡ true
      → Gets s bound (block.num_pkts + left) k []
      → Gets s bound left (retire block k) []
  retire-Gets left k block u g = go (is_user (k.ring.blocks k.ring.kernel_block)) refl
    where
      go :
          (b : Bool)
          → is_user (k.ring.blocks k.ring.kernel_block) ≡ b
          → Gets s bound left (retire block k) []
      go true h =
          subst (λ (r : AfPacketSocket). Gets s bound left r []) (sym (rw h refl))
            (record {
              to = g.to;
              reach = g.reach;
              at = g.at;
              got = g.got;
              made = omega (arith, g.made);
            })
      go false h =
          let ps = packets_of g.to.sock.ifindex block in
          let many = length-append g.to.produced ps in
          let these =
            length-packets_from g.to.sock.ifindex block.num_pkts block block.offset_to_first_pkt in
          Gets-Step (block.num_pkts + left) left k (kernel_retires block) [] g
            (retires block u
              (ap (λ (r : AfPacketSocket). is_user (r.ring.blocks r.ring.kernel_block)) g.at ∙ h))
            (ap (retire block) g.at) (sym (append-nil g.to.delivered)) (omega (arith, many, these))

  pub retire_all-Gets :
      (left : ℕ) (k : AfPacketSocket) (filled : List Block)
      → AllUser filled
      → Gets s bound (packets_in filled + left) k []
      → Gets s bound left (retire_all filled k) []
  retire_all-Gets left k [] a g =
      subst (λ (n : ℕ). Gets s bound n k []) (let e : 0 + left ≡ left = omega arith in e) g
  retire_all-Gets left k (block ∷ filled) (u, a) g =
      let e : block.num_pkts + packets_in filled + left
          ≡ block.num_pkts + (packets_in filled + left) =
        omega arith in
      retire_all-Gets left (retire block k) filled a (
        retire-Gets (packets_in filled + left) k block u
          (subst (λ (n : ℕ). Gets s bound n k []) e g))

  module _ (left : ℕ) (k : AfPacketSocket) where
    pub load-Gets :
        k.cursor ≡ none
        → is_user (k.ring.blocks k.current_block) ≡ true
        → Gets s bound left k []
        → Gets s bound left (load k) []
    load-Gets e u g =
        Gets-Step left left k reader_loads [] g
          (loads (ap (λ (r : AfPacketSocket). r.cursor) g.at ∙ e)
            (ap (λ (r : AfPacketSocket). is_user (r.ring.blocks r.current_block)) g.at ∙ u))
          (ap load g.at) (sym (append-nil g.to.delivered)) (omega arith)

    pub release-Gets :
        (c : BlockCursor)
        → k.cursor ≡ some c
        → c.num_pkts ≤ c.seen
        → Gets s bound left k []
        → Gets s bound left (release c k) []
    release-Gets c e h g =
        Gets-Step left left k (reader_releases c) [] g
          (releases c (ap (λ (r : AfPacketSocket). r.cursor) g.at ∙ e) h) (ap (release c) g.at)
          (sym (append-nil g.to.delivered)) (omega arith)

    pub take-Gets :
        (c : BlockCursor)
        → k.cursor ≡ some c
        → c.seen < c.num_pkts
        → Gets s bound left k []
        → Gets s bound left (take_packet c k).1 ((take_packet c k).0 ∷ [])
    take-Gets c e h g =
        Gets-Step left left k (reader_takes c) ((take_packet c k).0 ∷ []) g
          (takes c (ap (λ (r : AfPacketSocket). r.cursor) g.at ∙ e) h)
          (ap (λ (r : AfPacketSocket). (take_packet c r).1) g.at)
          (ap (λ (r : AfPacketSocket). g.to.delivered ++ ((take_packet c r).0 ∷ [])) g.at)
          (omega arith)
