-- ===== src/Listing/Net.antt =====
-- The assembler's calls of the network predicates.
use netdump.Base.{ℕ, ◌+◌, ◌≡◌, refl, List, [], ◌∷◌, ◌++◌, bit_and}
use netdump.Bpf.{ld_abs_w, jeq}
use netdump.Ast.{Direction, any, src, dst, NetAddr, ethertype_ip, ethertype_ipv6}
use netdump.Assembler.{Assembler}
use netdump.Compiler.Host.{ipv6_words}
use netdump.Compiler.Net.{alu_and, compile_net}
use netdump.Listing.Event.{Event, fresh, ins, jump, here, replay}
use netdump.Listing.Host.{guard_events, either_events}

abbrev pub masked_events : ℕ → ℕ → ℕ → ℕ → ℕ → ℕ → List Event
masked_events net mask offset n t f =
    ins (ld_abs_w offset) ∷ ins (alu_and mask) ∷ jump (jeq net) t f ∷ []

abbrev pub masked_words_events : List ℕ → List ℕ → ℕ → ℕ → ℕ → ℕ → List Event
masked_words_events (w₀ ∷ w₁ ∷ w₂ ∷ w₃ ∷ []) (m₀ ∷ m₁ ∷ m₂ ∷ m₃ ∷ []) offset n t f =
    ins (ld_abs_w (offset + 0))
    ∷ ins (alu_and m₀)
    ∷ fresh
    ∷ jump (jeq w₀) n f
    ∷ here n
    ∷ ins (ld_abs_w (offset + 4))
    ∷ ins (alu_and m₁)
    ∷ fresh
    ∷ jump (jeq w₁) (n + 1) f
    ∷ here (n + 1)
    ∷ ins (ld_abs_w (offset + 8))
    ∷ ins (alu_and m₂)
    ∷ fresh
    ∷ jump (jeq w₂) (n + 1 + 1) f
    ∷ here (n + 1 + 1)
    ∷ ins (ld_abs_w (offset + 12))
    ∷ ins (alu_and m₃)
    ∷ jump (jeq w₃) t f
    ∷ []
masked_words_events _ _ offset n t f = []

abbrev pub net6_test : ℕ → ℕ → ℕ → ℕ → ℕ → ℕ → List Event
unfolding ipv6_words
net6_test addr mask = masked_words_events (ipv6_words addr) (ipv6_words mask)

abbrev pub at_events : (ℕ → ℕ → ℕ → ℕ → List Event) → ℕ → ℕ → Direction → ℕ → ℕ → ℕ → List Event
at_events test p q any n t f = either_events test p q n t f
at_events test p q src n t f = test p n t f
at_events test p q dst n t f = test q n t f

abbrev pub net_events : NetAddr → Direction → ℕ → ℕ → ℕ → List Event
net_events (NetAddr.v4 addr mask) dir n t f =
    guard_events ethertype_ip n f
    ++ at_events (masked_events (bit_and addr mask) mask) 26 30 dir (n + 1) t f
net_events (NetAddr.v6 addr mask) dir n t f =
    guard_events ethertype_ipv6 n f ++ at_events (net6_test addr mask) 22 38 dir (n + 1) t f

pub compile_net-replay :
    (addr : NetAddr) (dir : Direction) (t f : ℕ) (asm : Assembler)
    → compile_net addr dir t f asm ≡ (tt, replay (net_events addr dir asm.next_label t f) asm)
unfolding compile_net
compile_net-replay (NetAddr.v4 a m) any t f asm = refl
compile_net-replay (NetAddr.v4 a m) src t f asm = refl
compile_net-replay (NetAddr.v4 a m) dst t f asm = refl
compile_net-replay (NetAddr.v6 a m) any t f asm = refl
compile_net-replay (NetAddr.v6 a m) src t f asm = refl
compile_net-replay (NetAddr.v6 a m) dst t f asm = refl
