-- ===== src/Correct/Net.antt =====
-- The network predicates.
use netdump.Base.{ℕ, ◌+◌, Bool, ◌&&◌, ◌==◌, List, [], ◌∷◌, bit_and}
use netdump.Bpf.{ld_abs_w, jeq}
use netdump.Ast.{Direction, any, src, dst, NetAddr, ethertype_ip, ethertype_ipv6}
use netdump.Compiler.Host.{ipv6_words}
use netdump.Compiler.Net.{alu_and}
use netdump.Vm.{read_u32}
use netdump.Vm.Rules.{Image, Goes, pick, Goes-both, Goes-abs_w, Goes-and, jeq_picks}
use netdump.Listing.Event.{Event, fresh, ins, jump, here}
use netdump.Listing.Net.{masked_events, masked_words_events, net6_test, at_events, net_events}
use netdump.Meaning.{sides, masked_words_match, net_matches}
use netdump.Correct.Proto.{Holds, guard-Goes}
use netdump.Correct.Host.{Decides, either-Goes}

module _ (im : Image) where
  open im use {prog, packet, index}

  abbrev masked : ℕ → ℕ → ℕ → Bool
  masked w m o = bit_and (read_u32 packet o) m == w

  masked-Goes : (w m : ℕ) → Decides im (masked_events w m) (masked w m)
  masked-Goes w m o l t f n a x ((e₀, (e₁, (e₂, rt, rf, _))), _) =
      Goes-abs_w im o e₀ (Goes-and im m e₁ (jeq_picks im w t f e₂ rt rf))

  masked_then :
      (o w m l t f : ℕ) (c : Bool) (n a x : ℕ)
      → Holds im n (ins (ld_abs_w o) ∷ ins (alu_and m) ∷ fresh ∷ jump (jeq w) l f ∷ here l ∷ [])
      → ((a' x' : ℕ) → Goes im (n + 1 + 1 + 1) a' x' (pick c (index t) (index f)))
      → Goes im n a x (pick (masked w m o && c) (index t) (index f))
  masked_then o w m l t f c n a x ((e₀, (e₁, (e₂, rt, rf, _))), (p, _)) g =
      Goes-both im (masked w m o) c (index l) (index t) (index f)
        (masked-Goes w m o l l f n a x ((e₀, (e₁, (e₂, rt, rf, tt))), tt)) (λ a' x'. rw p (g a' x'))

  masked_words-Goes :
      (w₀ w₁ w₂ w₃ m₀ m₁ m₂ m₃ : ℕ)
      → Decides im
          (masked_words_events (w₀ ∷ w₁ ∷ w₂ ∷ w₃ ∷ []) (m₀ ∷ m₁ ∷ m₂ ∷ m₃ ∷ []))
          (masked_words_match packet (w₀ ∷ w₁ ∷ w₂ ∷ w₃ ∷ []) (m₀ ∷ m₁ ∷ m₂ ∷ m₃ ∷ []))
  masked_words-Goes w₀ w₁ w₂ w₃ m₀ m₁ m₂ m₃ o l t f n a x
        (
          (
            e₀,
            (
              g₀,
              (
                j₀,
                t₀,
                f₀,
                (e₁, (g₁, (j₁, t₁, f₁, (e₂, (g₂, (j₂, t₂, f₂, (e₃, (g₃, (j₃, t₃, f₃, _))))))))),
              ),
            ),
          ),
          (p₀, (p₁, (p₂, _))),
        ) =
      masked_then (o + 0) w₀ m₀ l t f _ n a x ((e₀, (g₀, (j₀, t₀, f₀, tt))), (p₀, tt))
        λ a x.
          masked_then (o + 4) w₁ m₁ (l + 1) t f _ _ a x ((e₁, (g₁, (j₁, t₁, f₁, tt))), (p₁, tt))
            λ a x.
              masked_then (o + 8) w₂ m₂ (l + 1 + 1) t f _ _ a x
                ((e₂, (g₂, (j₂, t₂, f₂, tt))), (p₂, tt))
                λ a x. masked-Goes w₃ m₃ (o + 12) l t f _ a x ((e₃, (g₃, (j₃, t₃, f₃, tt))), tt)

  at-Goes :
      (test : ℕ → ℕ → ℕ → ℕ → List Event) (holds : ℕ → Bool)
      → Decides im test holds
      → (p q : ℕ) (dir : Direction) (l t f n a x : ℕ) → Holds im n (at_events test p q dir l t f)
      → Goes im n a x (pick (sides dir (holds p) (holds q)) (index t) (index f))
  at-Goes test holds correct p q any l t f n a x h = either-Goes im test holds correct p q l t f h
  at-Goes test holds correct p q src l t f n a x h = correct p l t f n a x h
  at-Goes test holds correct p q dst l t f n a x h = correct q l t f n a x h

  pub net-Goes :
      (addr : NetAddr) (dir : Direction) (l t f : ℕ) {n a x : ℕ}
      → Holds im n (net_events addr dir l t f)
      → Goes im n a x (pick (net_matches packet addr dir) (index t) (index f))
  unfolding ipv6_words
  net-Goes (NetAddr.v4 addr mask) dir l t f ((e₀, (j₀, t₀, f₀, c)), (p₀, d)) =
      guard-Goes im ethertype_ip l t f _ ((e₀, (j₀, t₀, f₀, tt)), (p₀, tt))
        λ a x.
          at-Goes (masked_events (bit_and addr mask) mask) (masked (bit_and addr mask) mask)
            (masked-Goes (bit_and addr mask) mask) 26 30 dir (l + 1) t f _ a x (c, d)
  net-Goes (NetAddr.v6 addr mask) dir l t f ((e₀, (j₀, t₀, f₀, c)), (p₀, d)) =
      guard-Goes im ethertype_ipv6 l t f _ ((e₀, (j₀, t₀, f₀, tt)), (p₀, tt))
        λ a x.
          at-Goes (net6_test addr mask)
            (masked_words_match packet (ipv6_words addr) (ipv6_words mask))
            (masked_words-Goes _ _ _ _ _ _ _ _) 22 38 dir (l + 1) t f _ a x (c, d)
