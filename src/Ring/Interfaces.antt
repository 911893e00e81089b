-- ===== src/Ring/Interfaces.antt =====
-- `list_interfaces` and `default_interface` of crates/netdump-afpacket/src/lib.rs. What `getifaddrs`
-- lists is a parameter, and the index of a name is; an index is an `int` of the system, 0 for a name
-- that has none.
use netdump.Base.{
  ℕ, Bool, true, false, not, ◌&&◌, Option, none, some, List, [], ◌∷◌, ◌++◌, leb, ◌==◌,
  if◌then◌else◌, bit_and,
}
use netdump.Base.Text.{codes}
use netdump.Core.{NetdumpError}
use netdump.Ring.Open.{text_eq}

pub record InterfaceInfo : Type 0 where
  pub name : List ℕ
  pub ifindex : ℕ
  pub is_up : Bool

-- An entry of the list of `getifaddrs`: a name and the interface's flags.
pub record IfAddr : Type 0 where
  pub ifa_name : List ℕ
  pub ifa_flags : ℕ

pub data IfAddrs : Type 0 where
  failed : List ℕ → IfAddrs
  listed : List IfAddr → IfAddrs

pub data Result {ℓ} (A : Type ℓ) : Type ℓ where
  ok : A → Result A
  error : NetdumpError → Result A

abbrev pub iff_up : ℕ
iff_up = 1

abbrev pub iff_loopback : ℕ
iff_loopback = 8

abbrev pub flags_up : ℕ → Bool
flags_up flags = not (bit_and flags iff_up == 0) && bit_and flags iff_loopback == 0

abbrev pub is_seen : List ℕ → List (List ℕ) → Bool
is_seen name [] = false
is_seen name (n ∷ seen) = if text_eq name n then true else is_seen name seen

-- `slice::sort_by_key`, which keeps the order of entries with the same index.
abbrev pub insert_by_ifindex : InterfaceInfo → List InterfaceInfo → List InterfaceInfo
insert_by_ifindex x [] = x ∷ []
insert_by_ifindex x (y ∷ ys) =
    let rest = insert_by_ifindex x ys in if leb x.ifindex y.ifindex then x ∷ y ∷ ys else y ∷ rest

abbrev pub sort_by_ifindex : List InterfaceInfo → List InterfaceInfo
sort_by_ifindex [] = []
sort_by_ifindex (x ∷ xs) = insert_by_ifindex x (sort_by_ifindex xs)

abbrev pub find_up : List InterfaceInfo → Option InterfaceInfo
find_up [] = none
find_up (x ∷ xs) = if x.is_up then some x else find_up xs

abbrev pub name_or_error : Option InterfaceInfo → Result (List ℕ)
name_or_error none = error (NetdumpError.io (codes "no suitable interface found"))
name_or_error (some x) = ok x.name

module _ (index_of : List ℕ → ℕ) where
  -- The loop over the entries: the first entry of each name.
  abbrev pub first_entries : List (List ℕ) → List IfAddr → List InterfaceInfo
  first_entries seen [] = []
  first_entries seen (cur ∷ rest) =
      let more = first_entries (cur.ifa_name ∷ seen) rest in
      let same = first_entries seen rest in
      if is_seen cur.ifa_name seen
      then same
      else record {
        name = cur.ifa_name;
        ifindex = index_of cur.ifa_name;
        is_up = flags_up cur.ifa_flags;
      }
        ∷ more

  unfoldable pub list_interfaces : IfAddrs → Result (List InterfaceInfo)
  list_interfaces (failed text) = error (NetdumpError.io (codes "getifaddrs: " ++ text))
  list_interfaces (listed entries) = ok (sort_by_ifindex (first_entries [] entries))

  abbrev pub default_of : Result (List InterfaceInfo) → Result (List ℕ)
  default_of (error e) = error e
  default_of (ok infos) = name_or_error (find_up infos)

  unfoldable pub default_interface : IfAddrs → Result (List ℕ)
  default_interface addrs = default_of (list_interfaces addrs)
