-- ===== src/Ring/Open.antt =====
-- `open_with_options`, `attach_filter` and the system calls that they make, in
-- crates/netdump-afpacket/src/lib.rs. The system is a parameter: it says of each call whether it
-- fails, and with what text; which interface has which index, and how large a page is.
use netdump.Base.{
  ℕ, ◌+◌, ◌-◌, ◌*◌, ◌%◌, ◌^◌, Bool, true, false, not, ◌&&◌, Option, none, some, List, [], ◌∷◌, ◌++◌,
  ltb, leb, ◌==◌, if◌then◌else◌, length,
}
use netdump.Base.Text.{codes, decimal}
use netdump.Ring.Raw.{RawBpfInsn}
use netdump.Core.{NetdumpError}
use netdump.Ring.Block.{Block}
use netdump.Ring.Reader.{AfPacketSocket}
use netdump.Ring.Size.{OpenOptions, default_options, TpacketReq, request, ring_size_of}

-- The system calls that change the socket. A filter's length is cut to a `u16`.
pub data Call : Type 0 where
  opens_socket : Call
  sets_non_blocking : Call
  sets_rcvbuf : ℕ → Call
  gets_flags : List ℕ → Call
  sets_promisc_flag : List ℕ → Call
  sets_version : Call
  binds : ℕ → Call
  attaches_filter : ℕ → List RawBpfInsn → Call
  sets_rx_ring : TpacketReq → Call
  maps : ℕ → Call
  unmaps : Call
  gets_statistics : Call
  opens_inet_socket : Call
  gets_hwaddr : List ℕ → Call
  closes : Call

pub record Kernel : Type 0 where
  pub fails : Call → Option (List ℕ)
  pub index_of : List ℕ → Option ℕ
  -- What the system says of a name with no index.
  pub index_error : List ℕ → List ℕ
  pub page_size : ℕ
  -- The ring as it is mapped.
  pub fresh : ℕ → Block
  -- The address of an interface, of fourteen bytes.
  pub hwaddr : List ℕ → List ℕ
  -- Packets and drops since the last time that they were asked for.
  pub statistics : ℕ × ℕ

-- A result beside the calls that were made, in their order.
pub data Outcome {ℓ} (A : Type ℓ) : Type ℓ where
  ok : A → Outcome A
  error : NetdumpError → Outcome A

abbrev pub Io {ℓ} : Type ℓ → Type ℓ
Io A = List Call × Outcome A

abbrev pub then_io {ℓ κ} : {A : Type ℓ} {B : Type κ} → List Call → Outcome A → (A → Io B) → Io B
then_io made (ok a) f = let (calls, r) = f a in (made ++ calls, r)
then_io made (error e) f = (made, error e)

infixl 10 ◌>>=◌ ◌>>◌
abbrev pub ◌>>=◌ {ℓ κ} : {A : Type ℓ} {B : Type κ} → Io A → (A → Io B) → Io B
m >>= f = then_io m.0 m.1 f

abbrev pub ◌>>◌ {ℓ κ} : {A : Type ℓ} {B : Type κ} → Io A → Io B → Io B
m >> n = then_io m.0 m.1 (λ _. n)

abbrev pub pure {ℓ} : {A : Type ℓ} → A → Io A
pure a = ([], ok a)

abbrev pub raise {ℓ} : {A : Type ℓ} → List ℕ → Io A
raise s = ([], error (NetdumpError.io s))

-- `buf_kib as i32`, times 1024, or the largest `i32` where that overflows; the value is the bit
-- pattern of the `i32`.
abbrev pub rcvbuf_bytes : ℕ → ℕ
rcvbuf_bytes buf_kib =
    if ltb buf_kib (2 ^ 21)
    then buf_kib * 1024
    else (if ltb buf_kib (2 ^ 32 - 2 ^ 21) then 2 ^ 31 - 1 else buf_kib * 1024 % 2 ^ 32)

-- Where a text has its first zero, counted from `i`.
abbrev pub nul_position : ℕ → List ℕ → Option ℕ
nul_position i [] = none
nul_position i (c ∷ s) = if c == 0 then some i else nul_position (i + 1) s

abbrev pub text_eq : List ℕ → List ℕ → Bool
text_eq [] [] = true
text_eq [] (d ∷ t) = false
text_eq (c ∷ s) [] = false
text_eq (c ∷ s) (d ∷ t) = c == d && text_eq s t

abbrev pub socket_of : Kernel → OpenOptions → ℕ → Bool → AfPacketSocket
socket_of k options ifindex attached = record {
  ifindex = ifindex;
  ring = record { blocks = k.fresh; kernel_block = 0 };
  block_nr = options.block_nr;
  current_block = 0;
  cursor = none;
  kernel_filter_attached = attached;
}

module _ (k : Kernel) where
  -- A call, with what stands around the system's text where it fails.
  abbrev pub io_call_hint : List ℕ → List ℕ → Call → Io (Unit {0})
  io_call_hint prefix hint call = elim (k.fails call) [
    | none ↦ (call ∷ [], ok tt)
    | some text ↦ (call ∷ [], error (NetdumpError.io (prefix ++ (text ++ hint))))
  ]

  abbrev pub io_call : List ℕ → Call → Io (Unit {0})
  io_call prefix call = io_call_hint prefix [] call

  abbrev pub found_index : List ℕ → Option ℕ → Io ℕ
  found_index name none =
      raise (codes "if_nametoindex(" ++ (name ++ (codes "): " ++ k.index_error name)))
  found_index name (some i) = pure i

  abbrev pub index_unless : List ℕ → Option ℕ → Io ℕ
  index_unless name (some i) =
      raise (codes "nul byte found in provided data at position: " ++ decimal i)
  index_unless name none = found_index name (k.index_of name)

  abbrev pub ifname_to_index : List ℕ → Io ℕ
  ifname_to_index name = index_unless name (nul_position 0 name)

  abbrev pub set_promiscuous : List ℕ → Io (Unit {0})
  set_promiscuous ifname =
      if leb 16 (length ifname)
      then raise (codes "interface name too long")
      else io_call (codes "ioctl SIOCGIFFLAGS: ") (gets_flags ifname)
        >> io_call (codes "ioctl SIOCSIFFLAGS: ") (sets_promisc_flag ifname)

  abbrev pub set_rcvbuf : Option ℕ → Io (Unit {0})
  set_rcvbuf none = pure tt
  set_rcvbuf (some buf_kib) =
      io_call (codes "setsockopt SO_RCVBUF: ") (sets_rcvbuf (rcvbuf_bytes buf_kib))

  abbrev pub attach : List RawBpfInsn → Io (Unit {0})
  attach program =
      io_call (codes "setsockopt SO_ATTACH_FILTER: ")
        (attaches_filter (length program % 2 ^ 16) program)

  abbrev pub attach_option : Option (List RawBpfInsn) → Io Bool
  attach_option none = pure false
  attach_option (some program) = attach program >> pure true

  -- `attach_filter`, which leaves an empty program out.
  abbrev pub attach_filter : List RawBpfInsn → Io (Unit {0})
  attach_filter [] = pure tt
  attach_filter (i ∷ program) = attach (i ∷ program)

  abbrev pub chosen_interface : List ℕ → Io (ℕ × Bool)
  chosen_interface ifname =
      if text_eq ifname (codes "any")
      then pure (0, true)
      else ifname_to_index ifname >>= λ ifindex. pure (ifindex, false)

  abbrev pub set_non_blocking : Io (Unit {0})
  set_non_blocking = io_call (codes "fcntl O_NONBLOCK: ") sets_non_blocking

  abbrev pub bind_to_interface : ℕ → Io (Unit {0})
  bind_to_interface ifindex = io_call (codes "bind: ") (binds ifindex)

  abbrev pub prepare : List ℕ → OpenOptions → ℕ × Bool → Io Bool
  prepare ifname options (ifindex, is_any) =
      io_call (codes "socket: ") opens_socket
      >> set_non_blocking
      >> set_rcvbuf options.buffer_size
      >> (if options.promiscuous && not is_any then set_promiscuous ifname else pure tt)
      >> io_call_hint (codes "setsockopt PACKET_VERSION:")
          (codes " (TPACKET_V3 requires Linux >= 3.2)") sets_version
      >> bind_to_interface ifindex
      >> attach_option options.filter

  abbrev pub make_ring : OpenOptions → Io (Unit {0})
  make_ring options =
      io_call (codes "setsockopt PACKET_RX_RING: ") (sets_rx_ring (request k.page_size options))
      >> io_call (codes "mmap: ") (maps (ring_size_of k.page_size options))

  unfoldable pub open_with_options : List ℕ → OpenOptions → Io AfPacketSocket
  open_with_options ifname options = chosen_interface ifname >>= λ chosen.
      prepare ifname options chosen >>= λ attached.
      make_ring options >> pure (socket_of k options chosen.0 attached)

  -- `open`, with the default options.
  abbrev pub open_default : List ℕ → Io AfPacketSocket
  open_default ifname = open_with_options ifname default_options
