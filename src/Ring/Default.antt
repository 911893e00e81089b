-- ===== src/Ring/Default.antt =====
-- Which interface `default_interface` of crates/netdump-afpacket/src/lib.rs selects.
use netdump.Base.{ℕ, ◌≤◌, ◌≡◌, ◌⊎◌, true, false, List, [], ◌∷◌}
use netdump.Ring.Interfaces.{InterfaceInfo, Result, ok, error}

-- An interface of the list.
abbrev pub In : InterfaceInfo → List InterfaceInfo → Type 0
In z [] = ⊥
In z (x ∷ xs) = (z ≡ x) ⊎ In z xs

-- No interface that is up has a lower index; where the result is an error, none is up.
abbrev pub IsLowest : List InterfaceInfo → Result (List ℕ) → Type 0
IsLowest infos (ok name) =
    (x : InterfaceInfo) × In x infos
    × (x.name ≡ name)
    × (x.is_up ≡ true)
    × ((y : InterfaceInfo) → In y infos → y.is_up ≡ true → x.ifindex ≤ y.ifindex)
IsLowest infos (error e) = (y : InterfaceInfo) → In y infos → y.is_up ≡ false

abbrev IsSorted : List InterfaceInfo → Type 0
IsSorted [] = Unit
IsSorted (x ∷ xs) = ((y : InterfaceInfo) → In y xs → x.ifindex ≤ y.ifindex) × IsSorted xs
