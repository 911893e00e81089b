-- ===== src/Correct/Host.antt =====
-- The host predicates.
use netdump.Base.{ℕ, ◌+◌, Bool, ◌&&◌, ◌||◌, ◌==◌, List, [], ◌∷◌}
use netdump.Bpf.{ld_abs_w, jeq}
use netdump.Ast.{Direction, any, src, dst, HostAddr, ethertype_ip, ethertype_ipv6}
use netdump.Compiler.Host.{ipv6_words, mac_high, mac_low}
use netdump.Vm.{read_u32}
use netdump.Vm.Rules.{Image, Goes, pick, Goes-both, Goes-either, Goes-abs_h, Goes-abs_w, jeq_picks}
use netdump.Listing.Event.{Event, fresh, ins, jump, here, advance, next_after}
use netdump.Listing.Host.{
  word_events, either_events, words_events, mac_events, host4_events, host_events, ether_events,
}
use netdump.Meaning.{sides, words_match, host_matches, mac_matches, ether_matches}
use netdump.Correct.Proto.{Holds, Holds-append, guard-Goes}

module _ (im : Image) where
  open im use {prog, packet, index}

  -- A test at an offset, compiled by `test` and meant by `holds`.
  abbrev pub Decides : (ℕ → ℕ → ℕ → ℕ → List Event) → (ℕ → Bool) → Type 0
  Decides test holds =
      (o l t f n a x : ℕ)
      → Holds im n (test o l t f)
      → Goes im n a x (pick (holds o) (index t) (index f))

  pub either-Goes :
      (test : ℕ → ℕ → ℕ → ℕ → List Event) (holds : ℕ → Bool)
      → Decides test holds
      → (p q l t f : ℕ) {n a x : ℕ} → Holds im n (either_events test p q l t f)
      → Goes im n a x (pick (holds p || holds q) (index t) (index f))
  either-Goes test holds correct p q l t f {n} {a} {x} (c, d) =
      let first = test p (l + 1) t l in
      let second = test q (next_after (l + 1) first) t f in
      let ((c₁, d₁), (c₂, (placed, d₂))) = Holds-append im n first (here l ∷ second) (c, d) in
      Goes-either im (holds p) (holds q) (index l) (index t) (index f)
        (correct p (l + 1) t l n a x (c₁, d₁))
        (λ a' x'. rw placed (correct q _ t f (advance n first) a' x' (c₂, d₂)))

  word-Goes : (w : ℕ) → Decides (λ o l t f. word_events o w t f) (λ o. read_u32 packet o == w)
  word-Goes w o l t f n a x ((e₀, (e₁, rt, rf, _)), _) =
      Goes-abs_w im o e₀ (jeq_picks im w t f e₁ rt rf)

  -- One word on the way, compared at an offset: the next label stands right behind.
  word_then :
      (o w l t f : ℕ) (c : Bool) (n a x : ℕ)
      → Holds im n (ins (ld_abs_w o) ∷ fresh ∷ jump (jeq w) l f ∷ here l ∷ [])
      → ((a' x' : ℕ) → Goes im (n + 1 + 1) a' x' (pick c (index t) (index f)))
      → Goes im n a x (pick (read_u32 packet o == w && c) (index t) (index f))
  word_then o w l t f c n a x ((e₀, (e₁, rt, rf, _)), (p, _)) g =
      Goes-both im (read_u32 packet o == w) c (index l) (index t) (index f)
        (word-Goes w o l l f n a x ((e₀, (e₁, rt, rf, tt)), tt)) (λ a' x'. rw p (g a' x'))

  words-Goes :
      (w₀ w₁ w₂ w₃ : ℕ)
      → Decides
          (words_events (w₀ ∷ w₁ ∷ w₂ ∷ w₃ ∷ []))
          (words_match packet (w₀ ∷ w₁ ∷ w₂ ∷ w₃ ∷ []))
  words-Goes w₀ w₁ w₂ w₃ o l t f n a x
        (
          (e₀, (j₀, t₀, f₀, (e₁, (j₁, t₁, f₁, (e₂, (j₂, t₂, f₂, (e₃, (j₃, t₃, f₃, _)))))))),
          (p₀, (p₁, (p₂, _))),
        ) =
      word_then (o + 0) w₀ l t f _ n a x ((e₀, (j₀, t₀, f₀, tt)), (p₀, tt))
        λ a x.
          word_then (o + 4) w₁ (l + 1) t f _ _ a x ((e₁, (j₁, t₁, f₁, tt)), (p₁, tt))
            λ a x.
              word_then (o + 8) w₂ (l + 1 + 1) t f _ _ a x ((e₂, (j₂, t₂, f₂, tt)), (p₂, tt))
                λ a x. word-Goes w₃ (o + 12) l t f _ a x ((e₃, (j₃, t₃, f₃, tt)), tt)

  mac-Goes :
      (addr : List ℕ)
      → Decides (mac_events (mac_high addr) (mac_low addr)) (mac_matches packet addr)
  mac-Goes addr o l t f n a x ((e₀, (j₀, t₀, f₀, (e₁, (j₁, t₁, f₁, _)))), (p₀, _)) =
      word_then o (mac_high addr) l t f _ n a x ((e₀, (j₀, t₀, f₀, tt)), (p₀, tt))
        λ a x. Goes-abs_h im (o + 4) e₁ (jeq_picks im (mac_low addr) t f j₁ t₁ f₁)

  host4-Goes :
      (addr : ℕ) (dir : Direction) (l t f n a x : ℕ)
      → Holds im n (host4_events addr dir l t f)
      → Goes im n a x (
          pick
            (sides dir (read_u32 packet 26 == addr) (read_u32 packet 30 == addr))
            (index t)
            (index f))
  host4-Goes addr any l t f n a x ((e₀, (j₀, t₀, f₀, (e₁, (j₁, t₁, f₁, _)))), (p₀, _)) =
      Goes-either im (read_u32 packet 26 == addr) (read_u32 packet 30 == addr) (index l) (index t)
        (index f) (word-Goes addr 26 l t l n a x ((e₀, (j₀, t₀, f₀, tt)), tt))
        (λ a x. rw p₀ (word-Goes addr 30 l t f _ a x ((e₁, (j₁, t₁, f₁, tt)), tt)))
  host4-Goes addr src l t f n a x h = word-Goes addr 26 l t f n a x h
  host4-Goes addr dst l t f n a x h = word-Goes addr 30 l t f n a x h

  pub host-Goes :
      (addr : HostAddr) (dir : Direction) (l t f : ℕ) {n a x : ℕ}
      → Holds im n (host_events addr dir l t f)
      → Goes im n a x (pick (host_matches packet addr dir) (index t) (index f))
  unfolding ipv6_words
  host-Goes (HostAddr.v4 addr) dir l t f ((e₀, (j₀, t₀, f₀, c)), (p₀, d)) =
      guard-Goes im ethertype_ip l t f _ ((e₀, (j₀, t₀, f₀, tt)), (p₀, tt))
        λ a x. host4-Goes addr dir (l + 1) t f _ a x (c, d)
  host-Goes (HostAddr.v6 addr) any l t f ((e₀, (j₀, t₀, f₀, c)), (p₀, d)) =
      guard-Goes im ethertype_ipv6 l t f _ ((e₀, (j₀, t₀, f₀, tt)), (p₀, tt))
        λ a x.
          either-Goes (words_events (ipv6_words addr)) (words_match packet (ipv6_words addr))
            (words-Goes _ _ _ _) 22 38 (l + 1) t f (c, d)
  host-Goes (HostAddr.v6 addr) src l t f ((e₀, (j₀, t₀, f₀, c)), (p₀, d)) =
      guard-Goes im ethertype_ipv6 l t f _ ((e₀, (j₀, t₀, f₀, tt)), (p₀, tt))
        λ a x. words-Goes _ _ _ _ 22 (l + 1) t f _ a x (c, d)
  host-Goes (HostAddr.v6 addr) dst l t f ((e₀, (j₀, t₀, f₀, c)), (p₀, d)) =
      guard-Goes im ethertype_ipv6 l t f _ ((e₀, (j₀, t₀, f₀, tt)), (p₀, tt))
        λ a x. words-Goes _ _ _ _ 38 (l + 1) t f _ a x (c, d)

  pub ether-Goes :
      (addr : List ℕ) (dir : Direction) (l t f : ℕ) {n a x : ℕ}
      → Holds im n (ether_events addr dir l t f)
      → Goes im n a x (pick (ether_matches packet addr dir) (index t) (index f))
  ether-Goes addr any l t f h =
      either-Goes (mac_events (mac_high addr) (mac_low addr)) (mac_matches packet addr)
        (mac-Goes addr) 0 6 l t f h
  ether-Goes addr src l t f h = mac-Goes addr 6 l t f _ _ _ h
  ether-Goes addr dst l t f h = mac-Goes addr 0 l t f _ _ _ h
