-- ===== src/Capture/Select.antt =====
-- What the loop over a file writes: the first packets that the filter accepts.
use netdump.Base.{
  ℕ, zero, suc, ◌+◌, ◌-◌, ◌≡◌, refl, sym, ap, ◌∙◌, subst, Bool, true, false, Option, none, some,
  List, [], ◌∷◌, ◌++◌, leb→le, if◌then◌else◌, length, arith,
}
use mathlib.Core.List.{append_assoc, append-nil}
use netdump.Bpf.{Instruction}
use netdump.Core.{SlicedPacket, NetdumpError}
use netdump.Args.{Args}
use netdump.Capture.Loop.{
  PcapPacket, Capture, Received, received, failure, Finish, done, failed, final, accepts,
  is_reached, count_one, show_read, after_write, keep, on_read, read_loop,
}

-- The packets before the first error, those of them that are accepted, and the first `n` of those.
abbrev pub before_failure : {A E : Type 0} → List (Received A E) → List A
before_failure [] = []
before_failure (received p ∷ rest) = p ∷ before_failure rest
before_failure (failure e ∷ rest) = []

abbrev pub accepted : Option (List Instruction) → List PcapPacket → List PcapPacket
accepted program [] = []
accepted program (p ∷ ps) =
    if accepts program p.bytes then p ∷ accepted program ps else accepted program ps

abbrev pub take : {A : Type 0} → ℕ → List A → List A
take zero xs = []
take (suc n) [] = []
take (suc n) (x ∷ xs) = x ∷ take n xs

-- What `--count` leaves of a list where some packets are captured already.
abbrev pub up_to : {A : Type 0} → Option ℕ → ℕ → List A → List A
up_to none captured xs = xs
up_to (some most) captured xs = take (most - captured) xs

module _ {A : Type 0} where
  pub up_to_nil : (o : Option ℕ) (n : ℕ) → up_to {A = A} o n [] ≡ []
  up_to_nil none n = refl
  up_to_nil (some most) n = go (most - n)
    where
      go : (k : ℕ) → take {A = A} k [] ≡ []
      go zero = refl
      go (suc k) = refl

  pub up_to_reached :
      (o : Option ℕ) (n : ℕ) (xs : List A) → is_reached o n ≡ true → up_to o n xs ≡ []
  up_to_reached none n xs h = absurd (ground arith)
  up_to_reached (some most) n xs h =
      let small = leb→le most n h in
      let nothing : most - n ≡ 0 = omega arith in ap (λ (k : ℕ). take k xs) nothing

  pub up_to_cons :
      (o : Option ℕ) (n : ℕ) (x : A) (xs : List A)
      → is_reached o n ≡ false
      → up_to o n (x ∷ xs) ≡ x ∷ up_to o (n + 1) xs
  up_to_cons none n x xs h = refl
  up_to_cons (some most) n x xs h =
      let more : most - n ≡ suc (most - (n + 1)) = ground arith in
      ap (λ (k : ℕ). take k (x ∷ xs)) more

-- The loop has written just these packets and has counted each.
abbrev pub Adds : Capture → List PcapPacket → Finish → Type 0
Adds s xs f = ((final f).written ≡ s.written ++ xs) × ((final f).captured ≡ s.captured + length xs)

pub Adds-nil :
    (s : Capture) {xs : List PcapPacket} (f : Finish) → final f ≡ s → xs ≡ [] → Adds s xs f
Adds-nil s f e h = (
  ap (λ (t : Capture). t.written) e
      ∙ sym (ap (λ (ys : List PcapPacket). s.written ++ ys) h ∙ append-nil s.written),
  ap (λ (t : Capture). t.captured) e
      ∙ sym (ap (λ (ys : List PcapPacket). s.captured + length ys) h ∙ omega arith),
)

Adds-cons :
    (s t : Capture) (p : PcapPacket) (xs : List PcapPacket) (f : Finish)
    → t.written ≡ s.written ++ (p ∷ [])
    → t.captured ≡ s.captured + 1
    → Adds t xs f
    → Adds s (p ∷ xs) f
Adds-cons s t p xs f w c (a, b) = (
  a ∙ ap (λ (ys : List PcapPacket). ys ++ xs) w ∙ append_assoc s.written (p ∷ []) xs,
  omega (arith, b, c),
)

-- One more packet, where the count is not reached.
pub Adds-more :
    (count : Option ℕ) (s t : Capture) (p : PcapPacket) (others : List PcapPacket) (f : Finish)
    → is_reached count s.captured ≡ false
    → t.written ≡ s.written ++ (p ∷ [])
    → t.captured ≡ s.captured + 1
    → Adds t (up_to count t.captured others) f
    → Adds s (up_to count s.captured (p ∷ others)) f
Adds-more count s t p others f more w c h =
    subst (λ (xs : List PcapPacket). Adds s xs f) (sym (up_to_cons count s.captured p others more))
      (Adds-cons s t p (up_to count (s.captured + 1) others) f w c
        (subst (λ (n : ℕ). Adds t (up_to count n others) f) c h))

-- Printing changes neither the file nor the count.
abbrev pub OnlyPrints : (Capture → Capture) → Type 0
OnlyPrints shown =
    (t : Capture) → ((shown t).written ≡ t.written) × ((shown t).captured ≡ t.captured)

module _ (slice : List ℕ → Option SlicedPacket) (term_width : ℕ)
    (write_error : List PcapPacket → Option (List ℕ)) (args : Args)
    (program : Option (List Instruction)) (writes : args.write ≡ true)
    (fine : (ps : List PcapPacket) → write_error ps ≡ none) where
  -- A packet that is kept is written and counted, and the loop goes on.
  pub keep_again :
      (again : Capture → Finish) (p : PcapPacket) (shown : Capture → Capture) (s : Capture)
      → OnlyPrints shown
      → (t : Capture) × (keep slice term_width write_error args again p shown s ≡ again t)
        × (t.written ≡ s.written ++ (p ∷ []))
        × (t.captured ≡ s.captured + 1)
  keep_again again p shown s same =
      go args.write writes (write_error (s.written ++ (p ∷ []))) (fine _)
    where
      kept : Capture
      kept = record (count_one s) { written = s.written ++ (p ∷ []) }

      only_prints :
          (b : Bool)
          → (let t : Capture = if b then shown kept else kept in
              (t.written ≡ s.written ++ (p ∷ [])) × (t.captured ≡ s.captured + 1))
      only_prints true = same kept
      only_prints false = (refl, refl)

      go :
          (b : Bool)
          → b ≡ true
          → (o : Option (List ℕ)) → o ≡ none
          → (t : Capture) × ((if b
                then after_write slice term_width write_error args again o p shown (count_one s)
                else again (shown (count_one s)))
              ≡ again t)
            × (t.written ≡ s.written ++ (p ∷ []))
            × (t.captured ≡ s.captured + 1)
      go true e none q =
          let (w, c) = only_prints args.print in
          (if args.print then shown kept else kept, refl, w, c)
      go true e (some m) q = absurd (ground arith)
      go false e o q = absurd (ground arith)

  -- A packet that is kept, before others.
  pub keep-Adds :
      (again : Capture → Finish) (p : PcapPacket) (shown : Capture → Capture)
      (others : List PcapPacket) (s : Capture)
      → OnlyPrints shown
      → is_reached args.count s.captured ≡ false
      → ((t : Capture) → Adds t (up_to args.count t.captured others) (again t))
      → Adds s
          (up_to args.count s.captured (p ∷ others))
          (keep slice term_width write_error args again p shown s)
  keep-Adds again p shown others s same more ih =
      let (t, e, w, c) = keep_again again p shown s same in
      subst (λ (f : Finish). Adds s (up_to args.count s.captured (p ∷ others)) f) (sym e)
        (Adds-more args.count s t p others (again t) more w c (ih t))

  -- What the loop still has to add.
  abbrev rest_of : Capture → List (Received PcapPacket (List ℕ)) → List PcapPacket
  rest_of s rs = up_to args.count s.captured (accepted program (before_failure rs))

  on_read-Adds :
      (again : Capture → Finish) (r : Received PcapPacket (List ℕ))
      (rest : List (Received PcapPacket (List ℕ))) (s : Capture)
      → is_reached args.count s.captured ≡ false
      → ((t : Capture) → Adds t (rest_of t rest) (again t))
      → Adds s (rest_of s (r ∷ rest)) (on_read slice term_width write_error args program again r s)
  on_read-Adds again (failure e) rest s more ih =
      Adds-nil s (failed (NetdumpError.io e) s) refl (up_to_nil args.count s.captured)
  on_read-Adds again (received p) rest s more ih = go (accepts program p.bytes)
    where
      others : List PcapPacket
      others = accepted program (before_failure rest)

      shown : Capture → Capture
      shown = show_read slice term_width write_error args program p

      go :
          (b : Bool)
          → Adds s
              (up_to args.count s.captured (if b then p ∷ others else others))
              (if b then keep slice term_width write_error args again p shown s else again s)
      go true = keep-Adds again p shown others s (λ t. (refl, refl)) more ih
      go false = ih s

  -- Where there is a file to write to and each packet can be written: whatever packets and errors the
  -- reader returns, the loop adds to that file exactly the packets before the first error that the
  -- filter accepts, no more of them than `--count` leaves, in their order, and counts each.
  pub read_loop-Adds :
      (rs : List (Received PcapPacket (List ℕ))) (s : Capture)
      → Adds s
          (up_to args.count s.captured (accepted program (before_failure rs)))
          (read_loop slice term_width write_error args program rs s)
  unfolding read_loop
  read_loop-Adds [] s = Adds-nil s (done s) refl (up_to_nil args.count s.captured)
  read_loop-Adds (r ∷ rest) s =
      go (is_reached args.count s.captured) refl (λ t. read_loop-Adds rest t)
    where
      again : Capture → Finish
      again = read_loop slice term_width write_error args program rest

      go :
          (b : Bool)
          → is_reached args.count s.captured ≡ b
          → ((t : Capture) → Adds t (rest_of t rest) (again t))
          → Adds s
              (rest_of s (r ∷ rest))
              (if b then done s else on_read slice term_width write_error args program again r s)
      go true e ih = Adds-nil s (done s) refl (up_to_reached args.count s.captured _ e)
      go false e ih = on_read-Adds again r rest s e ih
