-- ===== src/Ring/Order.antt =====
-- The order of the system calls of `open_with_options`, and the socket that it returns.
use netdump.Base.{◌≡◌, Bool, true, ◌&&◌, List, [], ◌∷◌}
use netdump.Ring.Open.{Call, attaches_filter, sets_rx_ring, Io, ok, error}

-- Whether a filter is attached after the calls, and whether no ring is made before one is.
abbrev pub attached_by : Bool → List Call → Bool
attached_by a [] = a
attached_by a (attaches_filter _ _ ∷ calls) = attached_by true calls
attached_by a (_ ∷ calls) = attached_by a calls

abbrev pub filter_first : Bool → List Call → Bool
filter_first a [] = true
filter_first a (attaches_filter _ _ ∷ calls) = filter_first true calls
filter_first a (sets_rx_ring _ ∷ calls) = a && filter_first a calls
filter_first a (_ ∷ calls) = filter_first a calls

-- From `a` to `b`: no ring is made before a filter is attached, and where the calls succeed, `b` says
-- whether one is.
abbrev KeepsAt {ℓ} : {A : Type ℓ} → Bool → Io A → Bool → Type 0
KeepsAt a (calls, ok x) b = (filter_first a calls ≡ true) × (attached_by a calls ≡ b)
KeepsAt a (calls, error e) b = filter_first a calls ≡ true

record Keeps {A : Type 0} (a : Bool) (m : Io A) (b : Bool) : Type 0 where
  at : KeepsAt a m b
