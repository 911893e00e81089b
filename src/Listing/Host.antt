-- ===== src/Listing/Host.antt =====
-- The assembler's calls of the host predicates.
use netdump.Base.{ℕ, ◌+◌, ◌≡◌, refl, List, [], ◌∷◌, ◌++◌}
use netdump.Bpf.{ld_abs_h, ld_abs_w, jeq}
use netdump.Ast.{Direction, any, src, dst, HostAddr, ethertype_ip, ethertype_ipv6}
use netdump.Assembler.{Assembler}
use netdump.Compiler.Host.{compile_host, compile_ether_host, ipv6_words, mac_high, mac_low}
use netdump.Listing.Event.{Event, fresh, ins, jump, here, replay, next_after}

-- One load and one comparison.
abbrev pub word_events : ℕ → ℕ → ℕ → ℕ → List Event
word_events offset word t f = ins (ld_abs_w offset) ∷ jump (jeq word) t f ∷ []

-- The test of the ether type that leads to the label `n`.
abbrev pub guard_events : ℕ → ℕ → ℕ → List Event
guard_events e n f = ins (ld_abs_h 12) ∷ fresh ∷ jump (jeq e) n f ∷ here n ∷ []

-- One test at either of two places: the second is tried where the first fails.
abbrev pub either_events : (ℕ → ℕ → ℕ → ℕ → List Event) → ℕ → ℕ → ℕ → ℕ → ℕ → List Event
either_events test p q n t f =
    let first = test p (n + 1) t n in
    fresh ∷ first ++ (here n ∷ test q (next_after (n + 1) first) t f)

-- The comparison of four words with those of an IPv6 address.
abbrev pub words_events : List ℕ → ℕ → ℕ → ℕ → ℕ → List Event
words_events (w₀ ∷ w₁ ∷ w₂ ∷ w₃ ∷ []) offset n t f =
    ins (ld_abs_w (offset + 0))
    ∷ fresh
    ∷ jump (jeq w₀) n f
    ∷ here n
    ∷ ins (ld_abs_w (offset + 4))
    ∷ fresh
    ∷ jump (jeq w₁) (n + 1) f
    ∷ here (n + 1)
    ∷ ins (ld_abs_w (offset + 8))
    ∷ fresh
    ∷ jump (jeq w₂) (n + 1 + 1) f
    ∷ here (n + 1 + 1)
    ∷ ins (ld_abs_w (offset + 12))
    ∷ jump (jeq w₃) t f
    ∷ []
words_events _ offset n t f = []

abbrev pub mac_events : ℕ → ℕ → ℕ → ℕ → ℕ → ℕ → List Event
mac_events high low offset n t f =
    fresh
    ∷ ins (ld_abs_w offset)
    ∷ jump (jeq high) n f
    ∷ here n
    ∷ ins (ld_abs_h (offset + 4))
    ∷ jump (jeq low) t f
    ∷ []

abbrev pub host4_events : ℕ → Direction → ℕ → ℕ → ℕ → List Event
host4_events addr any n t f =
    ins (ld_abs_w 26) ∷ fresh ∷ jump (jeq addr) t n ∷ here n ∷ word_events 30 addr t f
host4_events addr src n t f = word_events 26 addr t f
host4_events addr dst n t f = word_events 30 addr t f

abbrev pub host6_events : ℕ → Direction → ℕ → ℕ → ℕ → List Event
unfolding ipv6_words
host6_events addr any n t f = either_events (words_events (ipv6_words addr)) 22 38 n t f
host6_events addr src n t f = words_events (ipv6_words addr) 22 n t f
host6_events addr dst n t f = words_events (ipv6_words addr) 38 n t f

abbrev pub host_events : HostAddr → Direction → ℕ → ℕ → ℕ → List Event
host_events (HostAddr.v4 a) dir n t f =
    guard_events ethertype_ip n f ++ host4_events a dir (n + 1) t f
host_events (HostAddr.v6 a) dir n t f =
    guard_events ethertype_ipv6 n f ++ host6_events a dir (n + 1) t f

abbrev pub ether_events : List ℕ → Direction → ℕ → ℕ → ℕ → List Event
ether_events addr any n t f = either_events (mac_events (mac_high addr) (mac_low addr)) 0 6 n t f
ether_events addr src n t f = mac_events (mac_high addr) (mac_low addr) 6 n t f
ether_events addr dst n t f = mac_events (mac_high addr) (mac_low addr) 0 n t f

pub compile_host-replay :
    (addr : HostAddr) (dir : Direction) (t f : ℕ) (asm : Assembler)
    → compile_host addr dir t f asm ≡ (tt, replay (host_events addr dir asm.next_label t f) asm)
unfolding compile_host
compile_host-replay (HostAddr.v4 a) any t f asm = refl
compile_host-replay (HostAddr.v4 a) src t f asm = refl
compile_host-replay (HostAddr.v4 a) dst t f asm = refl
compile_host-replay (HostAddr.v6 a) any t f asm = refl
compile_host-replay (HostAddr.v6 a) src t f asm = refl
compile_host-replay (HostAddr.v6 a) dst t f asm = refl

pub compile_ether_host-replay :
    (addr : List ℕ) (dir : Direction) (t f : ℕ) (asm : Assembler)
    → compile_ether_host addr dir t f asm
      ≡ (tt, replay (ether_events addr dir asm.next_label t f) asm)
unfolding compile_ether_host
compile_ether_host-replay addr any t f asm = refl
compile_ether_host-replay addr src t f asm = refl
compile_ether_host-replay addr dst t f asm = refl
