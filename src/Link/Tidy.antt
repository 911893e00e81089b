-- ===== src/Link/Tidy.antt =====
-- Every fragment places its own labels only, each once.
use netdump.Base.{ℕ, ◌+◌, ◌≤◌, inl, List, [], ◌∷◌, ◌++◌, arith}
use netdump.Ast.{
  FilterAst, Protocol, ip, tcp, udp, RelOp, eq, HostAddr, NetAddr, Direction, any, src, dst,
}
use netdump.Bpf.{ld_abs_h, ld_ind_h, ret_k, cbpf_accept, cbpf_reject}
use netdump.Compiler.Host.{ipv6_words}
use netdump.Listing.Event.{Event, fresh, ins, here, next_after, next_after-ge, next_after-append}
use netdump.Listing.Proto.{proto_events, len_events}
use netdump.Listing.Host.{host_events, ether_events}
use netdump.Listing.Net.{net_events}
use netdump.Listing.Port.{port_events, range_events, frame_events}
use netdump.Listing.Node.{node_events, program_events}
use netdump.Link.Labels.{
  PlacesIn, Distinct, PlacesIn-append, PlacesIn-mono, NotPlaced-outside, Distinct-append,
}

pub record IsTidy (n : ℕ) (es : List Event) : Type 0 where
  pub places : PlacesIn n (next_after n es) es
  pub distinct : Distinct es

-- The label before two fragments is placed between them.
pub IsTidy-pair :
    (n : ℕ) (es ds : List Event)
    → IsTidy (n + 1) es
    → IsTidy (next_after (n + 1) es) ds
    → IsTidy n (fresh ∷ es ++ (here n ∷ ds))
IsTidy-pair n es ds p q =
    let mid = next_after (n + 1) es in
    let top = next_after (n + 1) (es ++ (here n ∷ ds)) in
    let low : n + 1 ≤ mid = next_after-ge (n + 1) es in
    let high : mid ≤ top =
      omega (arith, next_after-append (n + 1) es (here n ∷ ds), next_after-ge mid ds) in
    record {
      places =
          PlacesIn-append n top es (here n ∷ ds)
            (PlacesIn-mono (n + 1) mid n top es (omega arith) high p.places)
            (
              omega arith,
              omega arith,
              PlacesIn-mono mid (next_after mid ds) n top ds (omega arith)
                  (omega (arith, next_after-append (n + 1) es (here n ∷ ds))) q.places,
            );
      distinct =
          Distinct-append (n + 1) mid es (here n ∷ ds) p.places
            (λ m a b. (
              omega arith,
              NotPlaced-outside m mid (next_after mid ds) ds (inl (omega arith)) q.places,
            ))
            p.distinct
            (
              NotPlaced-outside n mid (next_after mid ds) ds (inl (omega arith)) q.places,
              q.distinct,
            );
    }

pub proto-IsTidy : (p : Protocol) (n t f : ℕ) → IsTidy n (proto_events p n t f)
proto-IsTidy ip n t f = omega arith
proto-IsTidy tcp n t f = omega arith
proto-IsTidy udp n t f = omega arith
proto-IsTidy _ n t f = omega arith

pub len-IsTidy : (op : RelOp) (len n t f : ℕ) → IsTidy n (len_events op len t f)
len-IsTidy eq len n t f = omega arith
len-IsTidy _ len n t f = omega arith

pub host-IsTidy : (a : HostAddr) (dir : Direction) (n t f : ℕ) → IsTidy n (host_events a dir n t f)
unfolding ipv6_words
host-IsTidy (HostAddr.v4 a) any n t f = omega arith
host-IsTidy (HostAddr.v4 a) src n t f = omega arith
host-IsTidy (HostAddr.v4 a) dst n t f = omega arith
host-IsTidy (HostAddr.v6 a) any n t f = omega arith
host-IsTidy (HostAddr.v6 a) src n t f = omega arith
host-IsTidy (HostAddr.v6 a) dst n t f = omega arith

pub ether-IsTidy : (a : List ℕ) (dir : Direction) (n t f : ℕ) → IsTidy n (ether_events a dir n t f)
ether-IsTidy a any n t f = omega arith
ether-IsTidy a src n t f = omega arith
ether-IsTidy a dst n t f = omega arith

pub net-IsTidy : (a : NetAddr) (dir : Direction) (n t f : ℕ) → IsTidy n (net_events a dir n t f)
unfolding ipv6_words
net-IsTidy (NetAddr.v4 a m) any n t f = omega arith
net-IsTidy (NetAddr.v4 a m) src n t f = omega arith
net-IsTidy (NetAddr.v4 a m) dst n t f = omega arith
net-IsTidy (NetAddr.v6 a m) any n t f = omega arith
net-IsTidy (NetAddr.v6 a m) src n t f = omega arith
net-IsTidy (NetAddr.v6 a m) dst n t f = omega arith

pub port-IsTidy :
    (p : ℕ) (dir : Direction) (n t f : ℕ)
    → IsTidy n
        (frame_events (port_events ld_abs_h 54 56 p dir) (port_events ld_ind_h 14 16 p dir) n t f)
port-IsTidy p any n t f = omega arith
port-IsTidy p src n t f = omega arith
port-IsTidy p dst n t f = omega arith

pub range-IsTidy :
    (lo hi : ℕ) (dir : Direction) (n t f : ℕ)
    → IsTidy n (
        frame_events
          (range_events ld_abs_h 54 56 lo hi dir)
          (range_events ld_ind_h 14 16 lo hi dir)
          n
          t
          f)
range-IsTidy lo hi any n t f = omega arith
range-IsTidy lo hi src n t f = omega arith
range-IsTidy lo hi dst n t f = omega arith

pub node-IsTidy : (ast : FilterAst) (n t f : ℕ) → IsTidy n (node_events ast n t f)
node-IsTidy (FilterAst.and l r) n t f =
    IsTidy-pair n _ _ (node-IsTidy l (n + 1) n f) (node-IsTidy r _ t f)
node-IsTidy (FilterAst.or l r) n t f =
    IsTidy-pair n _ _ (node-IsTidy l (n + 1) t n) (node-IsTidy r _ t f)
node-IsTidy (FilterAst.not e) n t f = node-IsTidy e n f t
node-IsTidy (FilterAst.proto p) n t f = proto-IsTidy p n t f
node-IsTidy (FilterAst.host addr dir) n t f = host-IsTidy addr dir n t f
node-IsTidy (FilterAst.port p dir) n t f = port-IsTidy p dir n t f
node-IsTidy (FilterAst.port_range lo hi dir) n t f = range-IsTidy lo hi dir n t f
node-IsTidy (FilterAst.ether_host addr dir) n t f = ether-IsTidy addr dir n t f
node-IsTidy (FilterAst.net addr dir) n t f = net-IsTidy addr dir n t f
node-IsTidy (FilterAst.len op len) n t f = len-IsTidy op len n t f

-- The labels 0 and 1 are placed behind the filter's own.
pub program-Distinct : (ast : FilterAst) → Distinct (program_events ast)
program-Distinct ast =
    let es = node_events ast 2 0 1 in
    let tidy = node-IsTidy ast 2 0 1 in
    Distinct-append 2 (next_after 2 es) es
      (here 0 ∷ ins (ret_k cbpf_accept) ∷ here 1 ∷ ins (ret_k cbpf_reject) ∷ []) tidy.places
      (λ m a b. omega arith) tidy.distinct (omega arith)
