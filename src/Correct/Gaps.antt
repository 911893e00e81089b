-- ===== src/Correct/Gaps.antt =====
-- Where the compiled program is not what the filter's words suggest: a port range with no
-- qualifier, an IPv6 network whose address has host bits, and a long chain of `or`.
use netdump.Base.{
  ℕ, zero, suc, ◌+◌, ◌*◌, ◌^◌, ◌≤◌, ◌<◌, ◌≡◌, refl, ap, ◌∙◌, Bool, true, false, ◌&&◌, some, List,
  [], ◌∷◌, ◌==◌, arith, bit_and, bit_and_twice,
}
use netdump.Bpf.{Instruction}
use netdump.Ast.{FilterAst, Direction, any, src, dst, NetAddr, Protocol}
use netdump.Assembler.{Result, ok, panic, offset_too_large}
use netdump.Compiler.{compile}
use netdump.Compiler.Host.{ipv6_words}
use netdump.Vm.{exec, read_u16, read_u32}
use netdump.Link.Panic.{emitted, compile-panic}
use netdump.Meaning.{matches, header_length, masked_words_match}
use netdump.Bpf.{ret_k, cbpf_accept, cbpf_reject}
use netdump.Compiler.{assemble}
use netdump.Compiler.Port.{compile_port_range}
use netdump.Compiler.Net.{compile_net}
use netdump.Listing.Event.{here, ins, advance, advance-append, next_after}
use netdump.Listing.Proto.{ethertype_events}
use netdump.Listing.Node.{node_events}
use netdump.Link.Code.{Code, Reaches, Code-append, Placed-append}
use netdump.Correct.Compile.{exec-compile, compile-Code}

range_emitted : (lo hi : ℕ) → emitted (FilterAst.port_range lo hi any) ≡ 24
unfolding assemble compile_port_range
range_emitted lo hi = refl

-- The program of a port range with no qualifier rejects a packet whose source port, read behind an
-- IPv6 header and behind the IPv4 header, is below the range, whatever its destination port.
pub range-source_below :
    (lo hi : ℕ) (packet : List ℕ) {prog : List Instruction}
    → lo < 2 ^ 16
    → hi < 2 ^ 16
    → compile (FilterAst.port_range lo hi any) ≡ ok prog
    → read_u16 packet 54 < lo
    → read_u16 packet (header_length packet + 14) < lo
    → exec prog packet ≡ some false
unfolding matches
range-source_below lo hi packet p q h six four =
    exec-compile (FilterAst.port_range lo hi any) packet (p, q) (omega (arith, range_emitted lo hi))
      h
    ∙ ap some (ground arith)

-- The words of an address that its mask leaves as they are.
abbrev pub masks_cover : List ℕ → List ℕ → Bool
masks_cover (w ∷ ws) (m ∷ ms) = bit_and w m == w && masks_cover ws ms
masks_cover _ _ = true

masked_words-cover :
    (packet : List ℕ) (w₀ w₁ w₂ w₃ m₀ m₁ m₂ m₃ o : ℕ)
    → masks_cover (w₀ ∷ w₁ ∷ w₂ ∷ w₃ ∷ []) (m₀ ∷ m₁ ∷ m₂ ∷ m₃ ∷ []) ≡ false
    → masked_words_match packet (w₀ ∷ w₁ ∷ w₂ ∷ w₃ ∷ []) (m₀ ∷ m₁ ∷ m₂ ∷ m₃ ∷ []) o ≡ false
masked_words-cover packet w₀ w₁ w₂ w₃ m₀ m₁ m₂ m₃ o h = ground (
  arith,
  bit_and_twice (read_u32 packet (o + 0)) m₀,
  bit_and_twice (read_u32 packet (o + 4)) m₁,
  bit_and_twice (read_u32 packet (o + 8)) m₂,
  bit_and_twice (read_u32 packet (o + 12)) m₃,
)

net_words-cover :
    (packet : List ℕ) (a m o : ℕ)
    → masks_cover (ipv6_words a) (ipv6_words m) ≡ false
    → masked_words_match packet (ipv6_words a) (ipv6_words m) o ≡ false
unfolding ipv6_words
net_words-cover packet a m o = masked_words-cover packet _ _ _ _ _ _ _ _ o

net_emitted : (a m : ℕ) (dir : Direction) → emitted (FilterAst.net (NetAddr.v6 a m) dir) ≤ 30
unfolding assemble compile_net
net_emitted a m any = omega arith
net_emitted a m src = omega arith
net_emitted a m dst = omega arith

-- An IPv6 network whose address has a bit outside its mask matches no packet: the program
-- compares the masked words of the packet with the words of the address as they were written.
pub net-host_bits :
    (a m : ℕ) (dir : Direction) (packet : List ℕ) {prog : List Instruction}
    → a < 2 ^ 128
    → m < 2 ^ 128
    → masks_cover (ipv6_words a) (ipv6_words m) ≡ false
    → compile (FilterAst.net (NetAddr.v6 a m) dir) ≡ ok prog
    → exec prog packet ≡ some false
unfolding matches ipv6_words
net-host_bits a m dir packet p q bits h =
    exec-compile (FilterAst.net (NetAddr.v6 a m) dir) packet (p, q)
      (omega (arith, net_emitted a m dir)) h
    ∙ ap some (no_side dir)
  where
    no_side : (d : Direction) → matches packet (FilterAst.net (NetAddr.v6 a m) d) ≡ false
    no_side any =
        ground (arith, net_words-cover packet a m 22 bits, net_words-cover packet a m 38 bits)
    no_side src = ground (arith, net_words-cover packet a m 22 bits)
    no_side dst = ground (arith, net_words-cover packet a m 38 bits)

-- `ip or ip or … or ip`, with `k` times the operator.
abbrev pub chain : ℕ → FilterAst
chain zero = FilterAst.proto Protocol.ip
chain (suc k) = FilterAst.or (chain k) (FilterAst.proto Protocol.ip)

-- The first test of a chain jumps to the label that accepts.
chain-Reaches :
    (prog : List Instruction) (index : ℕ → ℕ) (k n l t f : ℕ)
    → Code prog index n (node_events (chain k) l t f)
    → Reaches index (n + 1) t
chain-Reaches prog index zero n l t f (_, (_, r, _, _)) = r
chain-Reaches prog index (suc k) n l t f c =
    let es = node_events (chain k) (l + 1) t l in
    let ds = here l ∷ node_events (FilterAst.proto Protocol.ip) (next_after (l + 1) es) t f in
    chain-Reaches prog index k n (l + 1) t l (Code-append prog index n es ds c).0

chain-size : (k n l t f : ℕ) → advance n (node_events (chain k) l t f) ≡ n + 2 * k + 2
chain-size zero n l t f = omega arith
chain-size (suc k) n l t f = omega (
  arith,
  advance-append n (node_events (chain k) (l + 1) t l) (here l ∷ ethertype_events 0x0800 t f),
  chain-size k n (l + 1) t l,
)

-- A filter `ip or ip or … or ip`, with each operand the test `ip`, makes the compiler panic for a jump
-- that is too long where it has 128 or more operators. The tree is the one that groups to the left.
pub compile-chain : (k : ℕ) → 128 ≤ k → compile (chain k) ≡ panic offset_too_large
compile-chain k h = go (compile (chain k)) refl
  where
    go :
        (r : Result (List Instruction))
        → compile (chain k) ≡ r
        → compile (chain k) ≡ panic offset_too_large
    go (panic e) q = q ∙ ap panic (compile-panic (chain k) q).0
    go (ok prog) q =
        let (index, code, placed) = compile-Code (chain k) q in
        let es = node_events (chain k) 2 0 1 in
        let tail = here 0 ∷ ins (ret_k cbpf_accept) ∷ here 1 ∷ ins (ret_k cbpf_reject) ∷ [] in
        let r = chain-Reaches prog index k 0 2 0 1 (Code-append prog index 0 es tail code).0 in
        let (at, _) = (Placed-append prog index 0 es tail placed).1 in
        absurd (omega (arith, r, at, chain-size k 0 2 0 1))
