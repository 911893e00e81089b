-- ===== src/Parser/Mask.antt =====
-- The mask that `combine_net` of crates/netdump-filter/src/lib.rs makes of a prefix.
use native.Mathlib.Nat.{pow-suc, one-le-pow, pow-le-pow_right}
use netdump.Base.{ℕ, zero, suc, ◌-◌, ◌*◌, ◌%◌, ◌^◌, ◌≤◌, ◌<◌, ◌≡◌, refl, ◌==◌, if◌then◌else◌, arith}
use netdump.Ast.{HostAddr, NetAddr}
use netdump.Parser.Text.{ok, shift_overflow}
use netdump.Parser.Net.{prefix, shifted_max, combine_net}

abbrev pub width : HostAddr → ℕ
width (HostAddr.v4 _) = 32
width (HostAddr.v6 _) = 128

abbrev pub masked_by : HostAddr → ℕ → NetAddr
masked_by (HostAddr.v4 a) mask = NetAddr.v4 a mask
masked_by (HostAddr.v6 a) mask = NetAddr.v6 a mask

two_pow-lt : (s w : ℕ) → s < w → 2 ^ s < 2 ^ w
two_pow-lt s w h = omega (
  arith,
  pow-le-pow_right {n = 2} (omega arith) {i = suc s} {j = w} (omega arith),
  pow-suc 2 s,
  one-le-pow s 2 (omega arith),
)

-- A shift that is narrower than its type leaves ones in front of zeros.
shifted_max-32 : (s : ℕ) → s < 32 → shifted_max 32 s ≡ ok (2 ^ 32 - 2 ^ s)
shifted_max-32 s h =
    let value : (2 ^ 32 - 1) * 2 ^ s % 2 ^ 32 ≡ 2 ^ 32 - 2 ^ s =
      omega (arith, two_pow-lt s 32 h, one-le-pow s 2 (omega arith)) in
    ground (arith, value)

shifted_max-128 : (s : ℕ) → s < 128 → shifted_max 128 s ≡ ok (2 ^ 128 - 2 ^ s)
shifted_max-128 s h =
    let value : (2 ^ 128 - 1) * 2 ^ s % 2 ^ 128 ≡ 2 ^ 128 - 2 ^ s =
      omega (arith, two_pow-lt s 128 h, one-le-pow s 2 (omega arith)) in
    ground (arith, value)

-- The mask of a network, by a prefix that is within the address: as many ones as the prefix says in
-- front of zeros, except that prefix 0 panics for the width of its shift, in both versions.
pub combine_net-prefix :
    (addr : HostAddr) (p : ℕ)
    → p ≤ width addr
    → combine_net addr (prefix p) ≡ (
        if p == 0
        then shift_overflow
        else ok (masked_by addr (2 ^ width addr - 2 ^ (width addr - p))))
unfolding combine_net
combine_net-prefix (HostAddr.v4 a) zero h = refl
combine_net-prefix (HostAddr.v4 a) (suc p) h =
    rw (shifted_max-32 (32 - suc p) (omega arith)) (ground arith)
combine_net-prefix (HostAddr.v6 a) zero h = refl
combine_net-prefix (HostAddr.v6 a) (suc p) h =
    rw (shifted_max-128 (128 - suc p) (omega arith)) (ground arith)
