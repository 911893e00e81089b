-- ===== src/Correct/Node.antt =====
-- A whole filter, and a whole program.
use netdump.Base.{ℕ, ◌+◌, Bool, true, false, List, [], ◌∷◌}
use netdump.Bpf.{ret_k, cbpf_accept, cbpf_reject}
use netdump.Ast.{FilterAst}
use netdump.Vm.{start}
use netdump.Vm.Run.{Runs}
use netdump.Vm.Rules.{Image, Goes, at, pick, Goes-both, Goes-either, Runs-ret}
use netdump.Listing.Event.{ins, here, advance, next_after}
use netdump.Listing.Node.{node_events, program_events}
use netdump.Meaning.{matches}
use netdump.Correct.Proto.{Holds, Holds-append, proto-Goes, len-Goes, pick-not}
use netdump.Correct.Host.{host-Goes, ether-Goes}
use netdump.Correct.Net.{net-Goes}
use netdump.Correct.Port.{on_port-Goes, on_range-Goes}

module _ (im : Image) where
  open im use {prog, packet, index}

  pub node-Goes :
      (ast : FilterAst) (l t f : ℕ) (n a x : ℕ)
      → Holds im n (node_events ast l t f)
      → Goes im n a x (pick (matches packet ast) (index t) (index f))
  unfolding matches
  node-Goes (FilterAst.and e d) l t f n a x h =
      let es = node_events e (l + 1) l f in
      let ds = node_events d (next_after (l + 1) es) t f in
      let (h₁, (c, (placed, p))) = Holds-append im n es (here l ∷ ds) h in
      Goes-both im (matches packet e) (matches packet d) (index l) (index t) (index f)
        (node-Goes e (l + 1) l f n a x h₁)
        (λ a' x'. rw placed (node-Goes d (next_after (l + 1) es) t f (advance n es) a' x' (c, p)))
  node-Goes (FilterAst.or e d) l t f n a x h =
      let es = node_events e (l + 1) t l in
      let ds = node_events d (next_after (l + 1) es) t f in
      let (h₁, (c, (placed, p))) = Holds-append im n es (here l ∷ ds) h in
      Goes-either im (matches packet e) (matches packet d) (index l) (index t) (index f)
        (node-Goes e (l + 1) t l n a x h₁)
        (λ a' x'. rw placed (node-Goes d (next_after (l + 1) es) t f (advance n es) a' x' (c, p)))
  node-Goes (FilterAst.not e) l t f n a x h = rw pick-not (node-Goes e l f t n a x h)
  node-Goes (FilterAst.proto p) l t f n a x h = proto-Goes im p l t f h
  node-Goes (FilterAst.host addr dir) l t f n a x h = host-Goes im addr dir l t f h
  node-Goes (FilterAst.port p dir) l t f n a x h = on_port-Goes im p dir l t f n a x h
  node-Goes (FilterAst.port_range lo hi dir) l t f n a x h =
      on_range-Goes im lo hi dir l t f n a x h
  node-Goes (FilterAst.ether_host addr dir) l t f n a x h = ether-Goes im addr dir l t f h
  node-Goes (FilterAst.net addr dir) l t f n a x h = net-Goes im addr dir l t f h
  node-Goes (FilterAst.len op len) l t f n a x h = len-Goes im op len t f h

  -- The two returns behind a filter answer which of its labels was reached.
  ends :
      (c : Bool) (n : ℕ)
      → Holds im n (here 0 ∷ ins (ret_k cbpf_accept) ∷ here 1 ∷ ins (ret_k cbpf_reject) ∷ [])
      → (a x : ℕ) (m : List ℕ) → Runs prog packet (at (pick c (index 0) (index 1)) a x m) c
  ends true n ((e₀, (e₁, _)), (p₀, (p₁, _))) a x m = rw p₀ (Runs-ret im cbpf_accept e₀ a x m)
  ends false n ((e₀, (e₁, _)), (p₀, (p₁, _))) a x m = rw p₁ (Runs-ret im cbpf_reject e₁ a x m)

  -- A program that holds a filter's fragment and the two returns answers what the filter says.
  pub program-Runs :
      (ast : FilterAst)
      → Holds im 0 (program_events ast)
      → Runs prog packet start (matches packet ast)
  program-Runs ast h =
      let es = node_events ast 2 0 1 in
      let tail = here 0 ∷ ins (ret_k cbpf_accept) ∷ here 1 ∷ ins (ret_k cbpf_reject) ∷ [] in
      let (h₁, h₂) = Holds-append im 0 es tail h in
      node-Goes ast 2 0 1 0 0 0 h₁ start.mem (matches packet ast)
        (ends (matches packet ast) (advance 0 es) h₂)
