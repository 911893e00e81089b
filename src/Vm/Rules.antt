-- ===== src/Vm/Rules.antt =====
-- Rules for the runs of a program: where control gets to from an index, given A and X there.
use netdump.Base.{
  ℕ, ◌+◌, ◌-◌, ◌*◌, ◌%◌, ◌^◌, ◌<◌, ◌≡◌, refl, Bool, true, false, not, ◌&&◌, ◌||◌, some, List, arith,
  length, get_elem?, get_elem?-lt, bit_and, bit_or, ltb, leb, ◌==◌, if◌then◌else◌,
}
use netdump.Bpf.{
  Instruction, new, ld_abs_h, ld_abs_b, ld_abs_w, ld_ind_h, ldx_msh_b, jeq, jgt, jge, ret_k, bpf_ld,
  bpf_len, bpf_w,
}
use netdump.Compiler.Net.{alu_and}
use netdump.Vm.{State, go, step, read_u8, read_u16, read_u32}
use netdump.Vm.Run.{Runs, returns, steps}
use netdump.Link.Code.{Reaches, linked_jump}

abbrev pub at : ℕ → ℕ → ℕ → List ℕ → State
at n a x m = record { pc = n; a = a; x = x; mem = m }

abbrev pub pick : Bool → ℕ → ℕ → ℕ
pick b t f = if b then t else f

-- A program at hand: its instructions, where its labels are, and a packet to run it on.
pub record Image : Type 0 where
  pub prog : List Instruction
  pub packet : List ℕ
  pub index : ℕ → ℕ
  pub short : length prog < 2 ^ 63

module _ (im : Image) where
  open im use {prog, packet, index, short}

  -- From index `n`, with these values of A and X, the run gets to index `t`.
  abbrev pub Goes : ℕ → ℕ → ℕ → ℕ → Type 0
  Goes n a x t =
      (m : List ℕ) (b : Bool)
      → ((a' x' : ℕ) (m' : List ℕ) → Runs prog packet (at t a' x' m') b)
      → Runs prog packet (at n a x m) b

  pub Goes-here : (n a x : ℕ) → Goes n a x n
  Goes-here n a x m b k = k a x m

  pub Goes-trans :
      {n a x t : ℕ} (mid : ℕ) → Goes n a x mid → ((a' x' : ℕ) → Goes mid a' x' t) → Goes n a x t
  Goes-trans mid g h m b k = g m b (λ a' x' m'. h a' x' m' b k)

  -- Both of two tests: the second is made where the first holds.
  pub Goes-both :
      {n a x : ℕ} (c d : Bool) (mid t f : ℕ)
      → Goes n a x (pick c mid f)
      → ((a' x' : ℕ) → Goes mid a' x' (pick d t f))
      → Goes n a x (pick (c && d) t f)
  Goes-both true d mid t f g h = Goes-trans mid g h
  Goes-both false d mid t f g h = g

  -- Either of two tests: the second is made where the first fails.
  pub Goes-either :
      {n a x : ℕ} (c d : Bool) (mid t f : ℕ)
      → Goes n a x (pick c t mid)
      → ((a' x' : ℕ) → Goes mid a' x' (pick d t f))
      → Goes n a x (pick (c || d) t f)
  Goes-either true d mid t f g h = g
  Goes-either false d mid t f g h = Goes-trans mid g h

  Goes-load :
      {n x t : ℕ} (a v w : ℕ) (inst : Instruction)
      → get_elem? prog n ≡ some inst
      → ((m : List ℕ) → step packet inst (at (n + 1) a x m) ≡ go (at (n + 1) v w m))
      → Goes (n + 1) v w t
      → Goes n a x t
  Goes-load a v w inst e s g m b k = steps inst _ e (s m) (g m b k)

  pub Goes-abs_h :
      {n a x t : ℕ} (off : ℕ)
      → get_elem? prog n ≡ some (ld_abs_h off)
      → Goes (n + 1) (read_u16 packet off) x t
      → Goes n a x t
  unfolding step ld_abs_h
  Goes-abs_h {a} off e = Goes-load a _ _ _ e (λ m. refl)

  pub Goes-abs_b :
      {n a x t : ℕ} (off : ℕ)
      → get_elem? prog n ≡ some (ld_abs_b off)
      → Goes (n + 1) (read_u8 packet off) x t
      → Goes n a x t
  unfolding step ld_abs_b
  Goes-abs_b {a} off e = Goes-load a _ _ _ e (λ m. refl)

  pub Goes-abs_w :
      {n a x t : ℕ} (off : ℕ)
      → get_elem? prog n ≡ some (ld_abs_w off)
      → Goes (n + 1) (read_u32 packet off) x t
      → Goes n a x t
  unfolding step ld_abs_w
  Goes-abs_w {a} off e = Goes-load a _ _ _ e (λ m. refl)

  pub Goes-ind_h :
      {n a x t : ℕ} (off : ℕ)
      → get_elem? prog n ≡ some (ld_ind_h off)
      → Goes (n + 1) (read_u16 packet (x + off)) x t
      → Goes n a x t
  unfolding step ld_ind_h
  Goes-ind_h {a} off e = Goes-load a _ _ _ e (λ m. refl)

  pub Goes-msh :
      {n a x t : ℕ} (off : ℕ)
      → get_elem? prog n ≡ some (ldx_msh_b off)
      → Goes (n + 1) a (bit_and (read_u8 packet off) 0x0f * 4) t
      → Goes n a x t
  unfolding step ldx_msh_b
  Goes-msh {a} off e = Goes-load a _ _ _ e (λ m. refl)

  pub Goes-len :
      {n a x t : ℕ}
      → get_elem? prog n ≡ some (new (bit_or (bit_or bpf_ld bpf_len) bpf_w) 0 0 0)
      → Goes (n + 1) (length packet % 2 ^ 32) x t
      → Goes n a x t
  unfolding step
  Goes-len {a} e = Goes-load a _ _ _ e (λ m. refl)

  pub Goes-and :
      {n a x t : ℕ} (mask : ℕ)
      → get_elem? prog n ≡ some (alu_and mask)
      → Goes (n + 1) (bit_and a mask) x t
      → Goes n a x t
  unfolding step alu_and
  Goes-and {a} mask e = Goes-load a _ _ _ e (λ m. refl)

  target :
      (n t : ℕ)
      → n < length prog
      → Reaches index n t
      → (n + 1 + (index t - (n + 1))) % 2 ^ 64 ≡ index t
  target n t h r = omega arith

  Goes-jump :
      (test : Bool) {n a x l : ℕ} (inst : Instruction) (t f : ℕ)
      → get_elem? prog n ≡ some inst
      → Reaches index n t
      → Reaches index n f
      → ((m : List ℕ)
          → step packet inst (at (n + 1) a x m)
            ≡ go (
                at
                  (if test
                    then (n + 1 + (index t - (n + 1))) % 2 ^ 64
                    else (n + 1 + (index f - (n + 1))) % 2 ^ 64)
                  a
                  x
                  m))
      → (test ≡ true → Goes (index t) a x l)
      → (test ≡ false → Goes (index f) a x l)
      → Goes n a x l
  Goes-jump true {n} {a} {x} inst t f e rt rf s yes' no' m b k =
      steps inst (at (index t) a x m) e (rw (target n t (get_elem?-lt prog n e) rt) at (s m))
        (yes' refl m b k)
  Goes-jump false {n} {a} {x} inst t f e rt rf s yes' no' m b k =
      steps inst (at (index f) a x m) e (rw (target n f (get_elem?-lt prog n e) rf) at (s m))
        (no' refl m b k)

  pub Goes-jeq :
      {n a x l : ℕ} (k t f : ℕ)
      → get_elem? prog n ≡ some (linked_jump index n (jeq k) t f)
      → Reaches index n t
      → Reaches index n f
      → ((a == k) ≡ true → Goes (index t) a x l)
      → ((a == k) ≡ false → Goes (index f) a x l)
      → Goes n a x l
  unfolding step jeq
  Goes-jeq {a = a} k t f e rt rf = Goes-jump (a == k) _ t f e rt rf (λ m. ground arith)

  pub Goes-jgt :
      {n a x l : ℕ} (k t f : ℕ)
      → get_elem? prog n ≡ some (linked_jump index n (jgt k) t f)
      → Reaches index n t
      → Reaches index n f
      → ((ltb k a) ≡ true → Goes (index t) a x l)
      → ((ltb k a) ≡ false → Goes (index f) a x l)
      → Goes n a x l
  unfolding step jgt
  Goes-jgt {a = a} k t f e rt rf = Goes-jump (ltb k a) _ t f e rt rf (λ m. ground arith)

  pub Goes-jge :
      {n a x l : ℕ} (k t f : ℕ)
      → get_elem? prog n ≡ some (linked_jump index n (jge k) t f)
      → Reaches index n t
      → Reaches index n f
      → ((leb k a) ≡ true → Goes (index t) a x l)
      → ((leb k a) ≡ false → Goes (index f) a x l)
      → Goes n a x l
  unfolding step jge
  Goes-jge {a = a} k t f e rt rf = Goes-jump (leb k a) _ t f e rt rf (λ m. ground arith)

  -- The two instructions that end a program.
  pub Runs-ret :
      {n : ℕ} (k : ℕ)
      → get_elem? prog n ≡ some (ret_k k)
      → (a x : ℕ) (m : List ℕ) → Runs prog packet (at n a x m) (not (k == 0))
  unfolding step ret_k
  Runs-ret k e a x m = returns _ e refl

  pub jeq_picks :
      {n a x : ℕ} (k t f : ℕ)
      → get_elem? prog n ≡ some (linked_jump index n (jeq k) t f)
      → Reaches index n t
      → Reaches index n f
      → Goes n a x (pick (a == k) (index t) (index f))
  jeq_picks k t f e rt rf =
      Goes-jeq k t f e rt rf (λ h. rw h (Goes-here _ _ _)) (λ h. rw h (Goes-here _ _ _))

  pub jgt_picks :
      {n a x : ℕ} (k t f : ℕ)
      → get_elem? prog n ≡ some (linked_jump index n (jgt k) t f)
      → Reaches index n t
      → Reaches index n f
      → Goes n a x (pick (ltb k a) (index t) (index f))
  jgt_picks k t f e rt rf =
      Goes-jgt k t f e rt rf (λ h. rw h (Goes-here _ _ _)) (λ h. rw h (Goes-here _ _ _))

  pub jge_picks :
      {n a x : ℕ} (k t f : ℕ)
      → get_elem? prog n ≡ some (linked_jump index n (jge k) t f)
      → Reaches index n t
      → Reaches index n f
      → Goes n a x (pick (leb k a) (index t) (index f))
  jge_picks k t f e rt rf =
      Goes-jge k t f e rt rf (λ h. rw h (Goes-here _ _ _)) (λ h. rw h (Goes-here _ _ _))
