-- ===== src/Capture/Way.antt =====
-- What `-Q` of crates/netdump-cli/src/main.rs asks for: `in` for packets that another station has sent, `out`
-- for those that the interface has sent itself.
use netdump.Base.{
  ℕ, ◌≡◌, refl, sym, ap, ◌∙◌, Bool, true, false, not, ◌&&◌, Option, none, some, List, [], ◌∷◌, leb,
  ltb, if◌then◌else◌, length, arith,
}
use netdump.Base.Text.{codes}
use netdump.Ring.Open.{text_eq}
use netdump.Output.Line.{range_of}
use netdump.Capture.Loop.{is_wanted}

pub data Way : Type 0 where
  incoming : Way
  outgoing : Way
  anywhere : Way

abbrev pub way_of : List ℕ → Way
way_of direction =
    if text_eq direction (codes "in")
    then incoming
    else (if text_eq direction (codes "out") then outgoing else anywhere)

-- Whether the sender in the Ethernet header is the interface.
abbrev pub sent_by : List ℕ → List ℕ → Bool
sent_by mac bytes = text_eq (range_of 6 6 bytes) mac

abbrev pub goes_way : Way → Bool → Bool
goes_way incoming sent = not sent
goes_way outgoing sent = sent
goes_way anywhere sent = true

-- A packet that is too short for an Ethernet header goes every way.
abbrev pub goes : Option (List ℕ) → List ℕ → List ℕ → Bool
goes none mac bytes = true
goes (some direction) mac bytes =
    if ltb (length bytes) 14 then true else goes_way (way_of direction) (sent_by mac bytes)

not_out : (d : List ℕ) → text_eq d (codes "in") ≡ true → text_eq d (codes "out") ≡ false
not_out [] h = refl
not_out (c ∷ d) h = ground arith

long-short : (n : ℕ) → ltb n 14 ≡ not (leb 14 n)
long-short n = ground arith

-- The test of the loop says which packets go the way that is asked for.
pub is_wanted-goes :
    (direction : Option (List ℕ)) (mac bytes : List ℕ)
    → is_wanted direction mac bytes ≡ goes direction mac bytes
is_wanted-goes none mac bytes = refl
is_wanted-goes (some d) mac bytes =
    go (text_eq d (codes "in")) (text_eq d (codes "out")) (leb 14 (length bytes))
      (sent_by mac bytes) (not_out d)
    ∙ ap (λ (b : Bool). if b then true else goes_way (way_of d) (sent_by mac bytes))
        (sym (long-short (length bytes)))
  where
    go :
        (i o l sent : Bool)
        → (i ≡ true → o ≡ false)
        → (if l
            then (let outgoing = sent in not (i && outgoing) && not (o && not outgoing))
            else true)
          ≡ (if not l
              then true
              else goes_way (if i then incoming else (if o then outgoing else anywhere)) sent)
    go true true l sent h = absurd (ground (arith, h refl))
    go true false true true h = refl
    go true false true false h = refl
    go false true true true h = refl
    go false true true false h = refl
    go false false true true h = refl
    go false false true false h = refl
    go true false false sent h = refl
    go false o false sent h = refl
