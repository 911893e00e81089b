-- ===== src/Ring/Layout.antt =====
-- What the ring's sizes satisfy: a frame is a power of two that holds a packet, a block is whole
-- pages, and frames fill a block where the block size asked for is a power of two.
use native.Mathlib.Nat.{
  pow-suc, one-le-pow, pow-le-pow_right, mul-mod_left, mod-lt, div-add-mod', div-eq_of_lt-le,
  add-mul,
}
use netdump.Base.{
  ℕ, zero, suc, ◌+◌, ◌-◌, ◌*◌, ◌/◌, ◌%◌, ◌^◌, ◌≤◌, ◌<◌, ◌≡◌, ◌≢◌, refl, sym, ap, ◌∙◌, subst, inl,
  inr, ltb, leb, leb→le, ltb→lt, ltb→le, Bool-cases, arith,
}
use netdump.Base.Powers.{mask_high, pow-mod}
use netdump.Ring.Size.{
  OpenOptions, max, unwrap_or, align_to, power_from, frame_size_of, block_size_of,
  default_frame_size,
}

align_to-value :
    (value k : ℕ)
    → k ≤ 64
    → value + 2 ^ k ≤ 2 ^ 64
    → align_to value (2 ^ k) ≡ (value + 2 ^ k - 1) / 2 ^ k * 2 ^ k
unfolding align_to
align_to-value value k h l =
    mask_high 64 k (value + 2 ^ k - 1) h (omega (arith, one-le-pow k 2 (omega arith)))

-- The search for a power of two finds one that is large enough, and no larger than one that is.
power_from_lem :
    (fuel e b n : ℕ)
    → e ≤ b
    → b ≤ e + fuel
    → n ≤ 2 ^ b
    → (j : ℕ) × (power_from fuel n (2 ^ e) ≡ 2 ^ j) × (n ≤ 2 ^ j) × (j ≤ b)
unfolding power_from
power_from_lem zero e b n p q h = (e, refl, subst (λ (t : ℕ). n ≤ 2 ^ t) (omega arith) h, p)
power_from_lem (suc fuel) e b n p q h = elim (Bool-cases (leb n (2 ^ e))) [
  | inl f ↦ (e, rw f refl, leb→le n (2 ^ e) f, p)
  | inr f ↦
      let short : 2 ^ e < n = ground arith in
      let larger : e < b = grow short in
      let (j, same, large, below) = power_from_lem fuel (e + 1) b n (omega arith) (omega arith) h in
      let double : 2 ^ e * 2 ≡ 2 ^ (e + 1) =
        sym (ap (λ (t : ℕ). 2 ^ t) (omega arith) ∙ pow-suc 2 e) in
      (j, rw f (ap (power_from fuel n) double ∙ same), large, below)
]
  where
    grow : 2 ^ e < n → e < b
    grow short = elim (Bool-cases (ltb e b)) [
      | inl f ↦ ltb→lt e b f
      | inr f ↦ absurd (
          omega (
            arith,
            h,
            short,
            pow-le-pow_right {n = 2} (omega arith) {i = b} {j = e} (ltb→le e b f),
          ))
    ]

-- Sizes far from the width of a `usize`.
pub record IsModest (options : OpenOptions) : Type 0 where
  pub snaplen_small : options.snaplen + 256 ≤ 2 ^ 40
  pub frame_small : unwrap_or options.frame_size default_frame_size ≤ 2 ^ 40
  pub block_small : options.block_size ≤ 2 ^ 60

module _ (options : OpenOptions) (modest : IsModest options) where
  abbrev asked : ℕ
  asked = max (unwrap_or options.frame_size default_frame_size) (options.snaplen + 256)

  asked-le : asked ≤ 2 ^ 40
  asked-le = ground (arith, modest.snaplen_small, modest.frame_small)

  frame_size_lem :
      (j : ℕ) × (frame_size_of options ≡ 2 ^ j)
      × (j ≤ 40)
      × (unwrap_or options.frame_size default_frame_size ≤ frame_size_of options)
      × (options.snaplen + 256 ≤ frame_size_of options)
  frame_size_lem =
      let (j, same, large, below) =
        power_from_lem 64 0 40 asked (omega arith) (omega arith) asked-le in
      let first : unwrap_or options.frame_size default_frame_size ≤ asked = ground arith in
      let second : options.snaplen + 256 ≤ asked = ground arith in
      (j, same, below, omega (arith, same, large, first), omega (arith, same, large, second))

module _ (v k : ℕ) (small : v ≤ 2 ^ 60) (page : k ≤ 60) where
  some_page : 1 ≤ 2 ^ k
  some_page = one-le-pow k 2 (omega arith)

  value : align_to v (2 ^ k) ≡ (v + 2 ^ k - 1) / 2 ^ k * 2 ^ k
  value =
      align_to-value v k (omega arith)
        (omega (arith, small, pow-le-pow_right {n = 2} (omega arith) {i = k} {j = 60} page))

  aligned-mod : align_to v (2 ^ k) % 2 ^ k ≡ 0
  aligned-mod = ap (λ (t : ℕ). t % 2 ^ k) value ∙ mul-mod_left ((v + 2 ^ k - 1) / 2 ^ k) (2 ^ k)

  aligned-le : v ≤ align_to v (2 ^ k)
  aligned-le = omega (
    arith,
    value,
    div-add-mod' (v + 2 ^ k - 1) (2 ^ k),
    mod-lt (v + 2 ^ k - 1) {m = 2 ^ k} some_page,
    some_page,
  )

  -- Whole pages stay as they are.
  aligned-same : v % 2 ^ k ≡ 0 → align_to v (2 ^ k) ≡ v
  aligned-same h =
      let whole : v / 2 ^ k * 2 ^ k ≡ v = omega (arith, div-add-mod' v (2 ^ k), h) in
      let next : (v / 2 ^ k + 1) * 2 ^ k ≡ v / 2 ^ k * 2 ^ k + 2 ^ k =
        add-mul (v / 2 ^ k) 1 (2 ^ k) ∙ omega arith in
      let pages : (v + 2 ^ k - 1) / 2 ^ k ≡ v / 2 ^ k =
        div-eq_of_lt-le {k = v / 2 ^ k} (2 ^ k) {m = v + 2 ^ k - 1}
          (omega (arith, whole, some_page)) (omega (arith, whole, next, some_page)) in
      value ∙ ap (λ (t : ℕ). t * 2 ^ k) pages ∙ whole

  -- Less than a page becomes one.
  aligned-page : 0 < v → v < 2 ^ k → align_to v (2 ^ k) ≡ 2 ^ k
  aligned-page p h =
      let one_page : (v + 2 ^ k - 1) / 2 ^ k ≡ 1 =
        div-eq_of_lt-le {k = 1} (2 ^ k) {m = v + 2 ^ k - 1} (omega arith)
          (omega (arith, some_page)) in
      value ∙ ap (λ (t : ℕ). t * 2 ^ k) one_page ∙ omega arith

  aligned-tiles : (m j : ℕ) → v ≡ 2 ^ m → j ≤ m → align_to v (2 ^ k) % 2 ^ j ≡ 0
  aligned-tiles m j e h = elim (Bool-cases (leb k m)) [
    | inl f ↦
        ap (λ (t : ℕ). t % 2 ^ j)
          (aligned-same (ap (λ (t : ℕ). t % 2 ^ k) e ∙ pow-mod k m (leb→le k m f)))
        ∙ ap (λ (t : ℕ). t % 2 ^ j) e
        ∙ pow-mod j m h
    | inr f ↦
        let below : suc m ≤ k = ground arith in
        let less : v < 2 ^ k = omega (
          arith,
          e,
          pow-suc 2 m,
          one-le-pow m 2 (omega arith),
          pow-le-pow_right {n = 2} (omega arith) {i = suc m} {j = k} below,
        ) in
        ap (λ (t : ℕ). t % 2 ^ j)
          (aligned-page (omega (arith, e, one-le-pow m 2 (omega arith))) less)
        ∙ pow-mod j k (omega arith)
  ]

exponent-le : (j m : ℕ) → 2 ^ j ≤ 2 ^ m → j ≤ m
exponent-le j m h = elim (Bool-cases (ltb m j)) [
  | inl f ↦ absurd (
      omega (
        arith,
        h,
        pow-suc 2 m,
        one-le-pow m 2 (omega arith),
        pow-le-pow_right {n = 2} (omega arith) {i = suc m} {j = j} (ltb→lt m j f),
      ))
  | inr f ↦ ltb→le m j f
]

module _ (options : OpenOptions) (modest : IsModest options) (k : ℕ) (page : k ≤ 60) where
  largest : max options.block_size (frame_size_of options) ≤ 2 ^ 60
  largest =
      let (j, same, below, a, b) = frame_size_lem options modest in
      let frame : frame_size_of options ≤ 2 ^ 60 =
        omega
          (arith, same, pow-le-pow_right {n = 2} (omega arith) {i = j} {j = 60} (omega arith)) in
      ground (arith, frame, modest.block_small)

  -- With pages of 2^k bytes: the frame size is a power of two that holds the frame asked for, and a
  -- packet of the snap length with 256 bytes in front; the block size is whole pages, and no smaller
  -- than a frame and than the size asked for. The sizes asked for are far from the width of a `usize`.
  pub sizes-fit :
      (j : ℕ) × (frame_size_of options ≡ 2 ^ j)
      × (unwrap_or options.frame_size default_frame_size ≤ frame_size_of options)
      × (options.snaplen + 256 ≤ frame_size_of options)
      × (block_size_of (2 ^ k) options % 2 ^ k ≡ 0)
      × (options.block_size ≤ block_size_of (2 ^ k) options)
      × (frame_size_of options ≤ block_size_of (2 ^ k) options)
  sizes-fit =
      let (j, same, below, a, b) = frame_size_lem options modest in
      let v = max options.block_size (frame_size_of options) in
      let first : options.block_size ≤ v = ground arith in
      let second : frame_size_of options ≤ v = ground arith in
      let kept = aligned-le v k largest page in
      (
        j,
        same,
        a,
        b,
        aligned-mod v k largest page,
        omega (arith, first, kept),
        omega (arith, second, kept),
      )

  -- Frames fill a block when the block size asked for is a power of two.
  pub frames-fill :
      (m : ℕ)
      → options.block_size ≡ 2 ^ m
      → block_size_of (2 ^ k) options % frame_size_of options ≡ 0
  frames-fill m e =
      let (j, same, below, a, b) = frame_size_lem options modest in
      let v = max options.block_size (frame_size_of options) in
      ap (λ (t : ℕ). block_size_of (2 ^ k) options % t) same
      ∙ elim (Bool-cases (ltb options.block_size (frame_size_of options))) [
        | inl f ↦
            let larger : v ≡ frame_size_of options = ground arith in
            aligned-tiles v k largest page j j (larger ∙ same) (omega arith)
        | inr f ↦
            let larger : v ≡ options.block_size = ground arith in
            let holds : frame_size_of options ≤ options.block_size = ground arith in
            aligned-tiles v k largest page m j (larger ∙ e)
              (exponent-le j m (omega (arith, same, e, holds)))
      ]

  -- Frames do not fill a block when the block size asked for is whole pages and larger than a frame,
  -- but no multiple of one: it is taken as it is.
  pub frames-left :
      options.block_size % 2 ^ k ≡ 0
      → frame_size_of options ≤ options.block_size
      → options.block_size % frame_size_of options ≢ 0
      → block_size_of (2 ^ k) options % frame_size_of options ≢ 0
  frames-left h l n e =
      let same : max options.block_size (frame_size_of options) ≡ options.block_size =
        ground arith in
      n (
        ap (λ (t : ℕ). t % frame_size_of options)
          (sym (
            ap (λ (t : ℕ). align_to t (2 ^ k)) same
            ∙ aligned-same options.block_size k modest_block page h))
        ∙ e)
    where
      modest_block : options.block_size ≤ 2 ^ 60
      modest_block = modest.block_small
