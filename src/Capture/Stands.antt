-- ===== src/Capture/Stands.antt =====
-- What the rounds of the live loop of crates/netdump-cli/src/main.rs keep: a system that is reached, and
-- enough rounds and fuel for what is still to come.
use native.Mathlib.Nat.{mul-le-mul_right}
use netdump.Base.{
  ℕ, suc, ◌+◌, ◌*◌, ◌≤◌, ◌<◌, ◌≡◌, refl, ap, ◌∙◌, Bool, true, false, List, [], ◌∷◌, if◌then◌else◌,
  length, length-append, arith,
}
use netdump.Core.{Packet}
use netdump.Ring.Block.{is_user, Block}
use netdump.Ring.Reader.{AfPacketSocket, Poll, retire, written}
use netdump.Ring.System.{
  System, retires, takes, releases, loads, Reach, here, next, Reach-trans, IsOpened,
}
use netdump.Ring.Inv.{pending, opened-Inv}
use netdump.Ring.Fifo.{Reach-Inv}
use netdump.Ring.Gets.{IsKernel, supply, Gets}

-- What no step changes.
abbrev SameSocket : AfPacketSocket → AfPacketSocket → Type 0
SameSocket k m = (k.block_nr ≡ m.block_nr) × (k.kernel_filter_attached ≡ m.kernel_filter_attached)

retire-SameSocket : (block : Block) (k : AfPacketSocket) → SameSocket (retire block k) k
retire-SameSocket block k = go (is_user (k.ring.blocks k.ring.kernel_block))
  where
    go : (b : Bool) → SameSocket (if b then k else written block k) k
    go true = (refl, refl)
    go false = (refl, refl)

pub Reach-SameSocket : {s t : System} → Reach s t → SameSocket t.sock s.sock
Reach-SameSocket here = (refl, refl)
Reach-SameSocket (next {t} r (retires block u h)) =
    let (a, b) = retire-SameSocket block t.sock in let (c, d) = Reach-SameSocket r in (a ∙ c, b ∙ d)
Reach-SameSocket (next r (takes c e h)) = Reach-SameSocket r
Reach-SameSocket (next r (releases c e h)) = Reach-SameSocket r
Reach-SameSocket (next r (loads e u)) = Reach-SameSocket r

-- Enough rounds for the packets that are not delivered yet, in a system that is reached.
pub record Stands (s t : System) (most rounds : ℕ) (polls : List Poll) : Type 0 where
  pub reach : Reach s t
  pub kernel : IsKernel polls
  pub few : length polls ≤ most
  pub enough : length t.produced + supply polls < rounds + length t.delivered

pub next-Stands :
    {s t : System} {most rounds : ℕ} {polls polls' : List Poll} {sock : AfPacketSocket} {p : Packet}
    → Stands s t most (suc rounds) polls
    → (g : Gets t (length t.produced + supply polls) (supply polls') sock (p ∷ []))
    → IsKernel polls'
    → length polls' ≤ length polls
    → Stands s g.to most rounds polls'
next-Stands {t = t} {p = p} v g kernel few = record {
  reach = Reach-trans v.reach g.reach;
  kernel = kernel;
  few = omega (arith, v.few, few);
  enough = omega (arith, v.enough, g.made, ap length g.got, length-append t.delivered (p ∷ []));
}

pub never_zero :
    {s t : System} {most : ℕ} {polls : List Poll} → IsOpened s → ¬ Stands s t most 0 polls
never_zero {s} {t} opened v =
    let balance = (Reach-Inv (opened-Inv s opened) v.reach).balance in
    omega (arith, v.enough, ap length balance, length-append t.delivered (pending t))

pub fuel_enough :
    {s t : System} {most rounds fuel : ℕ} {polls : List Poll}
    → Stands s t most rounds polls
    → (most + 1) * (s.sock.block_nr + 1) + 1 < fuel
    → (length polls + 1) * (t.sock.block_nr + 1) + 1 < fuel
fuel_enough {t = t} {most} {polls = polls} v roomy =
    let fewer =
      mul-le-mul_right {m = length polls + 1} {n = most + 1} (t.sock.block_nr + 1)
        (omega (arith, v.few)) in
    let same = ap (λ (n : ℕ). (most + 1) * (n + 1)) (Reach-SameSocket v.reach).0 in
    omega (arith, fewer, same, roomy)

pub at_first :
    {s : System} {most rounds : ℕ} {polls : List Poll}
    → IsOpened s
    → IsKernel polls
    → length polls ≤ most
    → supply polls < rounds
    → Stands s s most rounds polls
at_first opened kernel few enough = record {
  reach = here;
  kernel = kernel;
  few = few;
  enough = omega (arith, enough, ap length opened.none_produced, ap length opened.none_delivered);
}
