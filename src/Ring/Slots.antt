-- ===== src/Ring/Slots.antt =====
-- The blocks that the reader has not given back, in ring order, and the packets that they hold.
use native.Mathlib.Nat.{mod-lt, mod-eq_of_lt, mod-eq-sub-mod, mod-add-mod}
use mathlib.Core.List.{append_assoc, append-nil}
use netdump.Base.{
  ℕ, zero, suc, ◌+◌, ◌-◌, ◌%◌, ◌≤◌, ◌<◌, ◌≡◌, ◌≢◌, refl, sym, ap, ◌∙◌, inl, inr, List, [], ◌++◌,
  ltb, ltb→lt, ltb→le, Bool-cases, arith,
}
use netdump.Core.{Packet}
use netdump.Ring.Block.{Block, packets_of}
use netdump.Ring.Reader.{put_block}

-- Fewer than a whole round apart, two numbers have different remainders.
pub mod-apart : (n i d : ℕ) → 0 < d → d < n → (i + d) % n ≢ i % n
mod-apart n i d p q e =
    let low : i % n < n = mod-lt i (omega arith) in
    let shifted : (i % n + d) % n ≡ (i + d) % n = mod-add-mod i n d in
    elim (Bool-cases (ltb (i % n + d) n)) [
      | inl h ↦
          let small = ltb→lt (i % n + d) n h in
          absurd (omega (arith, mod-eq_of_lt {n = i % n + d} {m = n} small, shifted, e, p))
      | inr h ↦
          let large = ltb→le (i % n + d) n h in
          let back : (i % n + d - n) % n ≡ i % n + d - n = mod-eq_of_lt (omega (arith, low, q)) in
          let less = mod-eq-sub-mod {n = i % n + d} {m = n} large in
          absurd (omega (arith, back, less, shifted, e, q, low, large))
    ]

-- The packets of `n` blocks from the `i`-th on.
module _ (ifindex nr : ℕ) where
  abbrev pub window : (ℕ → Block) → ℕ → ℕ → List Packet
  window blocks i zero = []
  window blocks i (suc n) = packets_of ifindex (blocks (i % nr)) ++ window blocks (i + 1) n

pub put_block_self : (blocks : ℕ → Block) (k : ℕ) (b : Block) → put_block blocks k b k ≡ b
put_block_self blocks k b = ground arith

pub put_block-other :
    (blocks : ℕ → Block) (k : ℕ) (b : Block) (j : ℕ) → k ≢ j → put_block blocks k b j ≡ blocks j
put_block-other blocks k b j h = ground arith

module _ (ifindex nr : ℕ) (blocks : ℕ → Block) where
  -- A block outside of the window does not matter to it.
  pub window-put :
      (k : ℕ) (b : Block) (i n : ℕ)
      → ((j : ℕ) → i ≤ j → j < i + n → k ≢ j % nr)
      → window ifindex nr (put_block blocks k b) i n ≡ window ifindex nr blocks i n
  window-put k b i zero h = refl
  window-put k b i (suc n) h = λ t.
      packets_of ifindex (put_block-other blocks k b (i % nr) (h i (omega arith) (omega arith)) t)
      ++ window-put k b (i + 1) n (λ j p q. h j (omega arith) (omega arith)) t

  -- One more block at the end.
  pub window-last :
      (i n : ℕ)
      → window ifindex nr blocks i (suc n)
        ≡ window ifindex nr blocks i n ++ packets_of ifindex (blocks ((i + n) % nr))
  window-last i zero =
      append-nil (packets_of ifindex (blocks (i % nr)))
      ∙ ap (λ (k : ℕ). packets_of ifindex (blocks (k % nr))) (omega arith)
  window-last i (suc n) =
      let first = packets_of ifindex (blocks (i % nr)) in
      ap (λ (xs : List Packet). first ++ xs) (window-last (i + 1) n)
      ∙ ap
          (λ (k : ℕ).
            first ++ (window ifindex nr blocks (i + 1) n ++ packets_of ifindex (blocks (k % nr))))
          (omega arith)
      ∙ sym (append_assoc first (window ifindex nr blocks (i + 1) n) _)
