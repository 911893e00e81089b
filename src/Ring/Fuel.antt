-- ===== src/Ring/Fuel.antt =====
-- The rounds of `next_packet` end: a round that goes on gives a block back, and a block comes back
-- only with a poll.
use netdump.Base.{
  ◌%◌, ℕ, zero, suc, ◌+◌, ◌*◌, ◌≤◌, ◌<◌, ◌≡◌, refl, sym, ap, ◌∙◌, subst, Bool, true, false, Option,
  none, some, List, [], ◌∷◌, if◌then◌else◌, arith, ltb, length, ◌==◌, ==→eq,
}
use native.Mathlib.Nat.{mod-lt}
use netdump.Base.{◌++◌}
use netdump.Base.Text.{codes}
use netdump.Core.{NetdumpError}
use netdump.Ring.Block.{Block, is_user}
use netdump.Ring.Reader.{
  take_packet, AfPacketSocket, BlockCursor, Poll, fails, wakes, retire_all, put_block, release,
  load, Waited, ready, failed, waiting, wait_for_block, Next, returned, error, blocked, out_of_fuel,
  after_wait, with_cursor, next_packet,
}
use netdump.Ring.Gets.{retire_all-SameReader}

-- How many of the first `n` blocks are the reader's.
abbrev pub users : (ℕ → Block) → ℕ → ℕ
users blocks zero = 0
users blocks (suc n) = (if is_user (blocks n) then 1 else 0) + users blocks n

pub users-le : (blocks : ℕ → Block) (n : ℕ) → users blocks n ≤ n
users-le blocks zero = omega arith
users-le blocks (suc n) = ground (arith, users-le blocks n)

users-put_outside :
    (blocks : ℕ → Block) (k : ℕ) (b : Block) (n : ℕ)
    → n ≤ k
    → users (put_block blocks k b) n ≡ users blocks n
users-put_outside blocks k b zero h = refl
users-put_outside blocks k b (suc n) h =
    let rest = users-put_outside blocks k b n (omega arith) in
    let same : put_block blocks k b n ≡ blocks n = ground arith in
    λ i. (if is_user (same i) then 1 else 0) + rest i

count_user : (b c : Bool) → b ≡ c → ◌≡◌ {A = ℕ} (if b then 1 else 0) (if c then 1 else 0)
count_user b c e = ap count e
  where
    count : Bool → ℕ
    count x = if x then 1 else 0

-- A block that is given back is one fewer.
users-put :
    (blocks : ℕ → Block) (k : ℕ) (b : Block) (n : ℕ)
    → k < n
    → is_user (blocks k) ≡ true
    → is_user b ≡ false
    → users (put_block blocks k b) n + 1 ≡ users blocks n
users-put blocks k b zero h u f = absurd (omega arith)
users-put blocks k b (suc n) h u f = go (k == n) refl (λ below. users-put blocks k b n below u f)
  where
    go :
        (x : Bool)
        → (k == n) ≡ x
        → (k < n → users (put_block blocks k b) n + 1 ≡ users blocks n)
        → users (put_block blocks k b) (suc n) + 1 ≡ users blocks (suc n)
    go true e ih =
        let same : k ≡ n = ==→eq k n e in
        let new : put_block blocks k b n ≡ b = ground arith in
        let mine = subst (λ (t : ℕ). is_user (blocks t) ≡ true) same u in
        let gone = count_user _ false (ap is_user new ∙ f) in
        let there = count_user _ true mine in
        omega (arith, users-put_outside blocks k b n (omega arith), gone, there)
    go false e ih =
        let other : put_block blocks k b n ≡ blocks n = ground arith in
        let below : k < n = ground arith in
        let kept = count_user _ (is_user (blocks n)) (ap is_user other) in
        omega (arith, ih below, kept)

-- The rounds that are left: the reader's blocks, and as many again with each poll.
abbrev pub rounds : ℕ → List Poll → (ℕ → Block) → ℕ
rounds nr [] k = users k nr
rounds nr (_ ∷ polls) k = nr + 1 + rounds nr polls k

-- More than one block's worth of rounds per poll.
pub rounds-le :
    (nr : ℕ) (polls : List Poll) (k : ℕ → Block) → rounds nr polls k ≤ (length polls + 1) * (nr + 1)
rounds-le nr [] k = omega (arith, users-le k nr)
rounds-le nr (p ∷ polls) k =
    let step : (suc (length polls) + 1) * (nr + 1) ≡ (length polls + 1) * (nr + 1) + (nr + 1) =
      grind arith in
    omega (arith, rounds-le nr polls k, step)

-- A poll is worth more than the blocks that it may bring.
rounds-poll :
    (nr : ℕ) (polls : List Poll) (k m : ℕ → Block) → rounds nr polls m ≤ nr + rounds nr polls k
rounds-poll nr [] k m = omega (arith, users-le m nr)
rounds-poll nr (p ∷ polls) k m = omega (arith, rounds-poll nr polls k m)

rounds-put :
    (blocks : ℕ → Block) (k : ℕ) (b : Block) (nr : ℕ) (polls : List Poll)
    → k < nr
    → is_user (blocks k) ≡ true
    → is_user b ≡ false
    → rounds nr polls (put_block blocks k b) + 1 ≡ rounds nr polls blocks
rounds-put blocks k b nr [] h u f = users-put blocks k b nr h u f
rounds-put blocks k b nr (p ∷ polls) h u f = omega (arith, rounds-put blocks k b nr polls h u f)

-- Where the next round stands.
abbrev Goes : ℕ → ℕ → ℕ → Waited → Type 0
Goes nr current left (ready k polls) =
    (rounds nr polls k.ring.blocks ≤ left)
    × (k.block_nr ≡ nr)
    × (k.current_block ≡ current)
    × (is_user (k.ring.blocks k.current_block) ≡ true)
Goes nr current left (failed e k polls) = Unit
Goes nr current left (waiting k) = Unit

wait_for_block-Goes :
    (nr current : ℕ) (polls : List Poll) (k : AfPacketSocket) (left : ℕ)
    → k.block_nr ≡ nr
    → k.current_block ≡ current
    → rounds nr polls k.ring.blocks ≤ left
    → Goes nr current left (wait_for_block polls k)
unfolding wait_for_block
wait_for_block-Goes nr current [] k left n c h = go (is_user (k.ring.blocks k.current_block)) refl
  where
    go :
        (b : Bool)
        → is_user (k.ring.blocks k.current_block) ≡ b
        → Goes nr current left (if b then ready k [] else waiting k)
    go true e = (h, n, c, e)
    go false e = tt
wait_for_block-Goes nr current (fails m ∷ polls) k left n c h =
    go (is_user (k.ring.blocks k.current_block)) refl
  where
    go :
        (b : Bool)
        → is_user (k.ring.blocks k.current_block) ≡ b
        → Goes nr current left (
            if b
            then ready k (fails m ∷ polls)
            else failed (NetdumpError.io (codes "poll: " ++ m)) k polls)
    go true e = (h, n, c, e)
    go false e = tt
wait_for_block-Goes nr current (wakes filled ∷ polls) k left n c h =
    let (same_cursor, same_nr, same_current) = retire_all-SameReader k filled in
    go (is_user (k.ring.blocks k.current_block)) refl (
      wait_for_block-Goes nr current polls (retire_all filled k) left (same_nr ∙ n)
        (same_current ∙ c)
        (omega (arith, rounds-poll nr polls k.ring.blocks (retire_all filled k).ring.blocks, h)))
  where
    go :
        (b : Bool)
        → is_user (k.ring.blocks k.current_block) ≡ b
        → Goes nr current left (wait_for_block polls (retire_all filled k))
        → Goes nr current left (
            if b
            then ready k (wakes filled ∷ polls)
            else wait_for_block polls (retire_all filled k))
    go true e r = (h, n, c, e)
    go false e r = r

abbrev pub Done : Next → Type 0
Done out_of_fuel = ⊥
Done (returned p k polls) = Unit
Done (error e k polls) = Unit
Done (blocked k) = Unit

-- The cursor is in a block of the ring that is the reader's.
abbrev pub CursorIn : AfPacketSocket → Option BlockCursor → Type 0
CursorIn k none = Unit
CursorIn k (some c) = (c.base < k.block_nr) × (is_user (k.ring.blocks c.base) ≡ true)

module _ (nr : ℕ) (some_blocks : 0 < nr) where
  -- Enough fuel for a round with a cursor.
  abbrev Lasts : (List Poll → AfPacketSocket → Next) → ℕ → Type 0
  Lasts again fuel =
      (polls : List Poll) (k : AfPacketSocket)
      → k.block_nr ≡ nr
      → k.current_block < nr
      → is_user (k.ring.blocks k.current_block) ≡ true
      → rounds nr polls k.ring.blocks < fuel
      → Done (again polls (load k))

  after_wait-Done :
      (again : List Poll → AfPacketSocket → Next) (fuel current left : ℕ) (w : Waited)
      → Lasts again fuel
      → current < nr
      → left < fuel
      → Goes nr current left w
      → Done (after_wait again w)
  after_wait-Done again fuel current left (ready k polls) h c l (r, n, same, u) =
      h polls k n (omega (arith, same, c)) u (omega arith)
  after_wait-Done again fuel current left (failed e k polls) h c l g = tt
  after_wait-Done again fuel current left (waiting k) h c l g = tt

  next_packet-Done_at :
      (fuel : ℕ) (polls : List Poll) (k : AfPacketSocket) (c : BlockCursor)
      → k.cursor ≡ some c
      → CursorIn k (some c)
      → k.block_nr ≡ nr
      → k.current_block < nr
      → rounds nr polls k.ring.blocks < fuel
      → Done (next_packet fuel polls k)
  unfolding next_packet
  next_packet-Done_at zero polls k c e f n l h = absurd (omega arith)
  next_packet-Done_at (suc fuel) polls k c e (base, u) n l h =
      subst (λ (o : Option BlockCursor). Done (with_cursor (next_packet fuel) o polls k)) (sym e)
        (go (ltb c.seen c.num_pkts) (
          after_wait-Done (next_packet fuel) fuel ((k.current_block + 1) % k.block_nr) left
            (wait_for_block polls (release c k))
            (λ q m m_nr m_below m_user m_left.
              next_packet-Done_at fuel q (load m) _ refl (omega (arith, m_below, m_nr), m_user) m_nr
                m_below m_left)
            (omega (
              arith,
              mod-lt (k.current_block + 1) {m = k.block_nr} (omega (arith, n, some_blocks)),
              n,
            ))
            (omega (arith, one_fewer, h))
            (wait_for_block-Goes nr ((k.current_block + 1) % k.block_nr) polls (release c k) left n
              refl (omega arith))))
    where
      left : ℕ
      left = rounds nr polls (release c k).ring.blocks

      one_fewer : left + 1 ≡ rounds nr polls k.ring.blocks
      one_fewer = rounds-put k.ring.blocks c.base _ nr polls (omega (arith, base, n)) u refl

      go :
          (b : Bool)
          → Done (after_wait (next_packet fuel) (wait_for_block polls (release c k)))
          → Done (
              if b
              then (let (packet, s') = take_packet c k in returned packet s' polls)
              else after_wait (next_packet fuel) (wait_for_block polls (release c k)))
      go true d = tt
      go false d = d

  -- With a round to spare for the first wait.
  pub next_packet-Done :
      (fuel : ℕ) (polls : List Poll) (k : AfPacketSocket)
      → CursorIn k k.cursor
      → k.block_nr ≡ nr
      → k.current_block < nr
      → rounds nr polls k.ring.blocks + 1 < fuel
      → Done (next_packet fuel polls k)
  unfolding next_packet
  next_packet-Done zero polls k f n l h = absurd (omega arith)
  next_packet-Done (suc fuel) polls k f n l h = go k.cursor refl f
    where
      go :
          (o : Option BlockCursor)
          → k.cursor ≡ o
          → CursorIn k o
          → Done (next_packet (suc fuel) polls k)
      go (some c) e f = next_packet-Done_at (suc fuel) polls k c e f n l (omega arith)
      go none e f =
          subst (λ (o : Option BlockCursor). Done (with_cursor (next_packet fuel) o polls k))
            (sym e)
            (after_wait-Done (next_packet fuel) fuel k.current_block (rounds nr polls k.ring.blocks)
              (wait_for_block polls k)
              (λ q m m_nr m_below m_user m_left.
                next_packet-Done_at fuel q (load m) _ refl (omega (arith, m_below, m_nr), m_user)
                  m_nr m_below m_left)
              l (omega arith)
              (wait_for_block-Goes nr k.current_block polls k (rounds nr polls k.ring.blocks) n refl
                (omega arith)))
