-- ===== src/Ring/Calls.antt =====
-- `statistics` and `Drop` of the socket in crates/netdump-afpacket/src/lib.rs, and `get_iface_mac` of
-- crates/netdump-cli/src/main.rs: the calls of the system besides those of `open_with_options`.
use netdump.Base.{ℕ, zero, suc, none, some, List, [], ◌∷◌, ◌++◌}
use netdump.Base.Text.{codes}
use netdump.Core.{NetdumpError}
use netdump.Ring.Open.{
  unmaps, gets_statistics, opens_inet_socket, gets_hwaddr, closes, Kernel, Io, ok, error, ◌>>◌,
  pure, io_call,
}

pub record PacketStats : Type 0 where
  pub packets : ℕ
  pub drops : ℕ

-- The first `n`.
abbrev pub first {ℓ} : {A : Type ℓ} → ℕ → List A → List A
first zero xs = []
first (suc n) [] = []
first (suc n) (x ∷ xs) = x ∷ first n xs

module _ (k : Kernel) where
  abbrev pub statistics : Io PacketStats
  statistics =
      io_call k (codes "getsockopt PACKET_STATISTICS: ") gets_statistics
      >> pure (record { packets = k.statistics.0; drops = k.statistics.1 })

  -- The ring of an opened socket is never null, and `munmap` is not asked whether it succeeds.
  abbrev pub drop : Io (Unit {0})
  drop = (unmaps ∷ [], ok tt)

  -- The socket is closed before the result of `ioctl` is looked at.
  abbrev pub hwaddr_of : List ℕ → Io (List ℕ)
  hwaddr_of name = elim (k.fails (gets_hwaddr name)) [
    | none ↦ (gets_hwaddr name ∷ closes ∷ [], ok (first 6 (k.hwaddr name)))
    | some text ↦ (
      gets_hwaddr name ∷ closes ∷ [],
      error (NetdumpError.io (codes "ioctl SIOCGIFHWADDR: " ++ text)),
    )
  ]

  -- The name is cut to fifteen bytes.
  abbrev pub get_iface_mac : List ℕ → Io (List ℕ)
  get_iface_mac ifname =
      io_call k (codes "socket: ") opens_inet_socket >> hwaddr_of (first 15 ifname)
