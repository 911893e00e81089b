-- ===== src/Listing/Port.antt =====
-- The assembler's calls of the port and port range predicates. `load` is the load at an absolute
-- offset or the one relative to X.
use netdump.Base.{ℕ, ◌+◌, ◌≡◌, refl, List, [], ◌∷◌, ◌++◌}
use netdump.Bpf.{Instruction, ld_abs_h, ld_abs_b, ld_ind_h, ldx_msh_b, jeq, jgt, jge}
use netdump.Ast.{Direction, any, src, dst, ipproto_tcp, ipproto_udp}
use netdump.Assembler.{Assembler}
use netdump.Compiler.Port.{compile_port, compile_port_range}
use netdump.Listing.Event.{Event, fresh, ins, jump, here, replay, next_after}
use netdump.Listing.Proto.{dispatch_events}

abbrev pub port_events : (ℕ → Instruction) → ℕ → ℕ → ℕ → Direction → ℕ → ℕ → ℕ → List Event
port_events load p q port any n t f =
    ins (load p) ∷ fresh ∷ jump (jeq port) t n ∷ here n ∷ ins (load q) ∷ jump (jeq port) t f ∷ []
port_events load p q port src n t f = ins (load p) ∷ jump (jeq port) t f ∷ []
port_events load p q port dst n t f = ins (load q) ∷ jump (jeq port) t f ∷ []

abbrev pub one_range_events : Instruction → ℕ → ℕ → ℕ → ℕ → ℕ → List Event
one_range_events load lo hi n t f =
    ins load ∷ fresh ∷ jump (jge lo) n f ∷ here n ∷ jump (jgt hi) f t ∷ []

abbrev pub range_events : (ℕ → Instruction) → ℕ → ℕ → ℕ → ℕ → Direction → ℕ → ℕ → ℕ → List Event
range_events load p q lo hi any n t f =
    ins (load p)
    ∷ fresh
    ∷ jump (jge lo) n f
    ∷ here n
    ∷ fresh
    ∷ jump (jgt hi) (n + 1) t
    ∷ here (n + 1)
    ∷ one_range_events (load q) lo hi (n + 1 + 1) t f
range_events load p q lo hi src n t f = one_range_events (load p) lo hi n t f
range_events load p q lo hi dst n t f = one_range_events (load q) lo hi n t f

-- TCP goes on at the label `n + 1`, UDP too, and anything else leaves by `f`.
abbrev pub tcp_udp_events : ℕ → ℕ → ℕ → List Event
tcp_udp_events offset n f =
    ins (ld_abs_b offset)
    ∷ fresh
    ∷ fresh
    ∷ jump (jeq ipproto_tcp) (n + 1) n
    ∷ here n
    ∷ jump (jeq ipproto_udp) (n + 1) f
    ∷ here (n + 1)
    ∷ []

-- The frame of both predicates, round the comparison of the ports over IPv6 and over IPv4.
abbrev pub frame_events :
    (ℕ → ℕ → ℕ → List Event) → (ℕ → ℕ → ℕ → List Event) → ℕ → ℕ → ℕ → List Event
frame_events six four n t f =
    let m = n + 1 + 1 + 1 in
    let over_six = tcp_udp_events 20 m f ++ six (m + 1 + 1) t f in
    let k = next_after m over_six in
    dispatch_events n f
    ++ (over_six
        ++ (here n ∷ (tcp_udp_events 23 k f ++ (ins (ldx_msh_b 14) ∷ four (k + 1 + 1) t f))))

pub compile_port-replay :
    (port : ℕ) (dir : Direction) (t f : ℕ) (asm : Assembler)
    → compile_port port dir t f asm ≡ (
      tt,
      replay
          (frame_events
            (port_events ld_abs_h 54 56 port dir)
            (port_events ld_ind_h 14 16 port dir)
            asm.next_label
            t
            f)
          asm,
    )
unfolding compile_port
compile_port-replay port any t f asm = refl
compile_port-replay port src t f asm = refl
compile_port-replay port dst t f asm = refl

pub compile_port_range-replay :
    (lo hi : ℕ) (dir : Direction) (t f : ℕ) (asm : Assembler)
    → compile_port_range lo hi dir t f asm ≡ (
      tt,
      replay
          (frame_events
            (range_events ld_abs_h 54 56 lo hi dir)
            (range_events ld_ind_h 14 16 lo hi dir)
            asm.next_label
            t
            f)
          asm,
    )
unfolding compile_port_range
compile_port_range-replay lo hi any t f asm = refl
compile_port_range-replay lo hi src t f asm = refl
compile_port_range-replay lo hi dst t f asm = refl
