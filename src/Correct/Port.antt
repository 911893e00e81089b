-- ===== src/Correct/Port.antt =====
-- The port and port range predicates.
use netdump.Base.{ℕ, ◌+◌, ◌≡◌, Bool, ◌&&◌, List, ◌∷◌, ◌++◌, get_elem?, some}
use netdump.Bpf.{Instruction, ld_abs_h, ld_ind_h, ldx_msh_b}
use netdump.Ast.{Direction, any, src, dst, ipproto_tcp, ipproto_udp}
use netdump.Vm.{read_u16}
use netdump.Vm.Rules.{
  Image, Goes, pick, Goes-here, Goes-both, Goes-abs_h, Goes-abs_b, Goes-ind_h, Goes-msh, Goes-jeq,
  Goes-jge, Goes-jgt, jeq_picks,
}
use netdump.Listing.Event.{Event, ins, here, advance, next_after}
use netdump.Listing.Proto.{dispatch_events}
use netdump.Listing.Port.{port_events, one_range_events, range_events, tcp_udp_events, frame_events}
use netdump.Meaning.{
  port_test, in_range, range_test, is_tcp_or_udp, header_length, on_ports, by_version,
}
use netdump.Correct.Proto.{Holds, Holds-append, dispatch-Goes}

module _ (im : Image) where
  open im use {prog, packet, index}

  -- An instruction that loads `value o` from an offset, while X is `x`.
  abbrev Loads : (ℕ → Instruction) → ℕ → (ℕ → ℕ) → Type 0
  Loads load x value =
      (n a t o : ℕ)
      → get_elem? prog n ≡ some (load o)
      → Goes im (n + 1) (value o) x t
      → Goes im n a x t

  abs-Loads : (x : ℕ) → Loads ld_abs_h x (read_u16 packet)
  abs-Loads x n a t o e g = Goes-abs_h im o e g

  ind-Loads : (x : ℕ) → Loads ld_ind_h x (λ o. read_u16 packet (x + o))
  ind-Loads x n a t o e g = Goes-ind_h im o e g

  port-Goes :
      (load : ℕ → Instruction) (value : ℕ → ℕ) (x : ℕ)
      → Loads load x value
      → (p q port : ℕ) (dir : Direction) (l t f n a : ℕ)
      → Holds im n (port_events load p q port dir l t f)
      → Goes im n a x (pick (port_test port dir (value p) (value q)) (index t) (index f))
  port-Goes load value x loads p q port any l t f n a
        ((e₀, (j₀, t₀, f₀, (e₁, (j₁, t₁, f₁, _)))), (placed, _)) =
      loads n a _ p e₀ (
        Goes-jeq im port t l j₀ t₀ f₀ (λ h. rw h (Goes-here im _ _ _))
          (λ h. rw (h, placed) (loads _ _ _ q e₁ (jeq_picks im port t f j₁ t₁ f₁))))
  port-Goes load value x loads p q port src l t f n a ((e₀, (j₀, t₀, f₀, _)), _) =
      loads n a _ p e₀ (jeq_picks im port t f j₀ t₀ f₀)
  port-Goes load value x loads p q port dst l t f n a ((e₀, (j₀, t₀, f₀, _)), _) =
      loads n a _ q e₀ (jeq_picks im port t f j₀ t₀ f₀)

  one_range-Goes :
      (load : ℕ → Instruction) (value : ℕ → ℕ) (x : ℕ)
      → Loads load x value
      → (o lo hi l t f n a : ℕ) → Holds im n (one_range_events (load o) lo hi l t f)
      → Goes im n a x (pick (in_range lo hi (value o)) (index t) (index f))
  one_range-Goes load value x loads o lo hi l t f n a
        ((e₀, (j₀, t₀, f₀, (j₁, t₁, f₁, _))), (placed, _)) =
      loads n a _ o e₀ (
        Goes-jge im lo l f j₀ t₀ f₀
          (λ h.
            rw (h, placed)
              (Goes-jgt im hi f t j₁ t₁ f₁ (λ k. rw k (Goes-here im _ _ _))
                (λ k. rw k (Goes-here im _ _ _))))
          (λ h. rw h (Goes-here im _ _ _)))

  range-Goes :
      (load : ℕ → Instruction) (value : ℕ → ℕ) (x : ℕ)
      → Loads load x value
      → (p q lo hi : ℕ) (dir : Direction) (l t f n a : ℕ)
      → Holds im n (range_events load p q lo hi dir l t f)
      → Goes im n a x (pick (range_test lo hi dir (value p) (value q)) (index t) (index f))
  range-Goes load value x loads p q lo hi any l t f n a
        ((e₀, (j₀, t₀, f₀, (j₁, t₁, f₁, c))), (p₀, (p₁, d))) =
      loads n a _ p e₀ (
        Goes-jge im lo l f j₀ t₀ f₀
          (λ h.
            rw (h, p₀)
              (Goes-jgt im hi (l + 1) t j₁ t₁ f₁
                (λ k.
                  rw (k, p₁) (one_range-Goes load value x loads q lo hi (l + 1 + 1) t f _ _ (c, d)))
                (λ k. rw k (Goes-here im _ _ _))))
          (λ h. rw h (Goes-here im _ _ _)))
  range-Goes load value x loads p q lo hi src l t f n a h =
      one_range-Goes load value x loads p lo hi l t f n a h
  range-Goes load value x loads p q lo hi dst l t f n a h =
      one_range-Goes load value x loads q lo hi l t f n a h

  -- TCP and UDP go on behind the fragment.
  tcp_udp-Goes :
      (o l f n a x : ℕ)
      → Holds im n (tcp_udp_events o l f)
      → Goes im n a x (pick (is_tcp_or_udp packet o) (n + 1 + 1 + 1) (index f))
  tcp_udp-Goes o l f n a x ((e₀, (j₀, t₀, f₀, (j₁, t₁, f₁, _))), (p₀, (p₁, _))) =
      Goes-abs_b im o e₀ (
        Goes-jeq im ipproto_tcp (l + 1) l j₀ t₀ f₀ (λ h. rw (h, p₁) (Goes-here im _ _ _))
          (λ h.
            rw (h, p₀)
              (Goes-jeq im ipproto_udp (l + 1) f j₁ t₁ f₁ (λ k. rw (k, p₁) (Goes-here im _ _ _))
                (λ k. rw k (Goes-here im _ _ _)))))

  -- The frame of both predicates, over what its two parts decide.
  frame-Goes :
      (six four : ℕ → ℕ → ℕ → List Event) (d₆ d₄ : Bool)
      → ((l t f n a x : ℕ) → Holds im n (six l t f) → Goes im n a x (pick d₆ (index t) (index f)))
      → ((l t f n a : ℕ)
          → Holds im n (four l t f)
          → Goes im n a (header_length packet) (pick d₄ (index t) (index f)))
      → (l t f n a x : ℕ) → Holds im n (frame_events six four l t f)
      → Goes im n a x (
          pick
            (by_version packet (is_tcp_or_udp packet 23 && d₄) (is_tcp_or_udp packet 20 && d₆))
            (index t)
            (index f))
  frame-Goes six four d₆ d₄ g₆ g₄ l t f n a x h =
      let m = l + 1 + 1 + 1 in
      let part₆ = six (m + 1 + 1) t f in
      let over_six = tcp_udp_events 20 m f ++ part₆ in
      let k = next_after m over_six in
      let part₄ = ins (ldx_msh_b 14) ∷ four (k + 1 + 1) t f in
      let n' = n + 1 + 1 + 1 in
      let (h₀, h₁) =
        Holds-append im n (dispatch_events l f)
          (over_six ++ (here l ∷ (tcp_udp_events 23 k f ++ part₄))) h in
      let (h₆, (c, (placed, d))) =
        Holds-append im n' over_six (here l ∷ (tcp_udp_events 23 k f ++ part₄)) h₁ in
      let (u₆, v₆) = Holds-append im n' (tcp_udp_events 20 m f) part₆ h₆ in
      let at₄ = advance n' over_six in
      let (u₄, ((e, c₄), p₄)) = Holds-append im at₄ (tcp_udp_events 23 k f) part₄ (c, d) in
      dispatch-Goes im l (index t) f (is_tcp_or_udp packet 23 && d₄) (is_tcp_or_udp packet 20 && d₆)
        h₀
        (λ a' x'. rw placed (
          Goes-both im (is_tcp_or_udp packet 23) d₄ (at₄ + 1 + 1 + 1) (index t) (index f)
            (tcp_udp-Goes 23 k f at₄ a' x' u₄)
            (λ a'' x''. Goes-msh im 14 e (g₄ (k + 1 + 1) t f _ a'' (c₄, p₄)))))
        (λ a' x'.
          Goes-both im (is_tcp_or_udp packet 20) d₆ (n' + 1 + 1 + 1) (index t) (index f)
            (tcp_udp-Goes 20 m f n' a' x' u₆) (λ a'' x''. g₆ (m + 1 + 1) t f _ a'' x'' v₆))

  pub on_port-Goes :
      (port : ℕ) (dir : Direction) (l t f n a x : ℕ)
      → Holds im n (
          frame_events
            (port_events ld_abs_h 54 56 port dir)
            (port_events ld_ind_h 14 16 port dir)
            l
            t
            f)
      → Goes im n a x (pick (on_ports packet (port_test port dir)) (index t) (index f))
  on_port-Goes port dir =
      frame-Goes (port_events ld_abs_h 54 56 port dir) (port_events ld_ind_h 14 16 port dir) _ _
        (λ l t f n a x.
          port-Goes ld_abs_h (read_u16 packet) x (abs-Loads x) 54 56 port dir l t f n a)
        (λ l t f n a.
          port-Goes ld_ind_h (λ o. read_u16 packet (header_length packet + o))
            (header_length packet) (ind-Loads (header_length packet)) 14 16 port dir l t f n a)

  pub on_range-Goes :
      (lo hi : ℕ) (dir : Direction) (l t f n a x : ℕ)
      → Holds im n (
          frame_events
            (range_events ld_abs_h 54 56 lo hi dir)
            (range_events ld_ind_h 14 16 lo hi dir)
            l
            t
            f)
      → Goes im n a x (pick (on_ports packet (range_test lo hi dir)) (index t) (index f))
  on_range-Goes lo hi dir =
      frame-Goes (range_events ld_abs_h 54 56 lo hi dir) (range_events ld_ind_h 14 16 lo hi dir) _ _
        (λ l t f n a x.
          range-Goes ld_abs_h (read_u16 packet) x (abs-Loads x) 54 56 lo hi dir l t f n a)
        (λ l t f n a.
          range-Goes ld_ind_h (λ o. read_u16 packet (header_length packet + o))
            (header_length packet) (ind-Loads (header_length packet)) 14 16 lo hi dir l t f n a)
