-- ===== src/Output/Names.antt =====
-- Names of ports, protocols and TCP flags, and MAC addresses, in crates/netdump-cli/src/main.rs. A
-- text is the list of its characters' numbers.
use native.Mathlib.Nat.{pow-suc}
use netdump.Base.{
  ℕ, zero, suc, ◌+◌, ◌-◌, ◌*◌, ◌/◌, ◌%◌, ◌^◌, ◌<◌, ◌≡◌, refl, Bool, false, not, ◌||◌, List, [], ◌∷◌,
  ◌++◌, ◌==◌, if◌then◌else◌, bit_and, byte_at, arith,
}
use netdump.Base.Text.{codes, digits}
use netdump.Output.Hex.{hex_byte}

-- `to_string` of a `u8` or a `u16`, which has at most five digits.
unfoldable pub to_string : ℕ → List ℕ
to_string n = digits 4 (n / 10) ++ ((48 + n % 10) ∷ [])

abbrev pub port_name : ℕ → List ℕ
port_name port =
    if port == 20
    then codes "ftp-data"
    else (if port == 21
        then codes "ftp"
        else (if port == 22
            then codes "ssh"
            else (if port == 23
                then codes "telnet"
                else (if port == 25
                    then codes "smtp"
                    else (if port == 53
                        then codes "domain"
                        else (if port == 80
                            then codes "http"
                            else (if port == 110
                                then codes "pop3"
                                else (if port == 143
                                    then codes "imap"
                                    else (if port == 443
                                        then codes "https"
                                        else (if port == 993
                                            then codes "imaps"
                                            else (if port == 995
                                                then codes "pop3s"
                                                else (if port == 8080
                                                    then codes "http-alt"
                                                    else to_string port))))))))))))

abbrev pub protocol_name : ℕ → List ℕ
protocol_name proto =
    if proto == 1
    then codes "icmp"
    else (if proto == 6
        then codes "tcp"
        else (if proto == 17
            then codes "udp"
            else (if proto == 58 then codes "icmp6" else to_string proto)))

-- The letters of the bits that are set: each argument says that a bit is 0.
abbrev letter : Bool → ℕ → List ℕ
letter unset c = if unset then [] else c ∷ []

abbrev or_dash : List ℕ → List ℕ
or_dash [] = 45 ∷ []
or_dash (c ∷ s) = c ∷ s

abbrev letters : Bool → Bool → Bool → Bool → Bool → Bool → List ℕ
letters f s r p a u =
    or_dash (
      letter f 70
      ++ (letter s 83 ++ (letter r 82 ++ (letter p 80 ++ (letter a 46 ++ letter u 85)))))

unfoldable pub format_tcp_flags : ℕ → List ℕ
format_tcp_flags flags =
    letters (bit_and flags 0x01 == 0) (bit_and flags 0x02 == 0) (bit_and flags 0x04 == 0)
      (bit_and flags 0x08 == 0) (bit_and flags 0x10 == 0) (bit_and flags 0x20 == 0)

-- Of a slice of six bytes or more; the callers pass six.
abbrev pub format_mac : List ℕ → List ℕ
format_mac mac =
    hex_byte (byte_at mac 0)
    ++ (58 ∷ hex_byte (byte_at mac 1)
        ++ (58 ∷ hex_byte (byte_at mac 2)
            ++ (58 ∷ hex_byte (byte_at mac 3)
                ++ (58 ∷ hex_byte (byte_at mac 4) ++ (58 ∷ hex_byte (byte_at mac 5))))))

abbrev pub has : ℕ → List ℕ → Bool
has c [] = false
has c (d ∷ s) = c == d || has c s

-- The text shows each of the six flags exactly where its bit is set.
abbrev pub Shows : Bool → Bool → Bool → Bool → Bool → Bool → List ℕ → Type 0
Shows f s r p a u text =
    (has 70 text ≡ not f)
    × (has 83 text ≡ not s)
    × (has 82 text ≡ not r)
    × (has 80 text ≡ not p)
    × (has 46 text ≡ not a)
    × (has 85 text ≡ not u)

letters-Shows : (f s r p a u : Bool) → Shows f s r p a u (letters f s r p a u)
letters-Shows f s r p a u = ground arith

-- The text of the flags shows each of the six flags exactly where its bit is set.
pub format_tcp_flags-Shows :
    (flags : ℕ)
    → Shows
        (bit_and flags 0x01 == 0)
        (bit_and flags 0x02 == 0)
        (bit_and flags 0x04 == 0)
        (bit_and flags 0x08 == 0)
        (bit_and flags 0x10 == 0)
        (bit_and flags 0x20 == 0)
        (format_tcp_flags flags)
unfolding format_tcp_flags
format_tcp_flags-Shows flags = letters-Shows _ _ _ _ _ _

-- The number that decimal digits stand for, behind a number that is read.
abbrev pub read : ℕ → List ℕ → ℕ
read n [] = n
read n (c ∷ s) = read (n * 10 + (c - 48)) s

pub read-append : (n : ℕ) (s t : List ℕ) → read n (s ++ t) ≡ read (read n s) t
read-append n [] t = refl
read-append n (c ∷ s) t = read-append (n * 10 + (c - 48)) s t

pub read-digits : (k n : ℕ) → n < 10 ^ k → read 0 (digits k n) ≡ n
read-digits zero n h = omega arith
read-digits (suc k) n h = ground (
  arith,
  read-append 0 (digits k (n / 10)) ((48 + n % 10) ∷ []),
  read-digits k (n / 10) (omega (arith, pow-suc 10 k)),
)
