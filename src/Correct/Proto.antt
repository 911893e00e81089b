-- ===== src/Correct/Proto.antt =====
-- The protocol and length predicates, and the tests that the port predicates share with them.
use netdump.Base.{
  ℕ, ◌+◌, ◌≡◌, refl, Bool, true, false, ◌&&◌, ◌==◌, List, [], ◌∷◌, ◌++◌, ◌%◌, ◌^◌, length, not,
}
use netdump.Ast.{
  Protocol, ip, ip6, tcp, udp, icmp, icmp6, arp, rarp, RelOp, eq, ne, gt, ge, lt, le, ethertype_ip,
  ethertype_ipv6, ethertype_arp, ethertype_rarp, ipproto_tcp, ipproto_udp, ipproto_icmp,
  ipproto_icmpv6,
}
use netdump.Vm.{read_u8}
use netdump.Vm.Rules.{
  Image, Goes, pick, Goes-here, Goes-both, Goes-abs_h, Goes-abs_b, Goes-len, Goes-jeq, jeq_picks,
  jgt_picks, jge_picks,
}
use netdump.Listing.Event.{Event, advance, fresh, ins, jump, here}
use netdump.Bpf.{ld_abs_h, ld_abs_b, jeq}
use netdump.Listing.Proto.{
  ethertype_events, dispatch_events, transport_events, icmp_events, proto_events, len_events,
}
use netdump.Link.Code.{Code, Placed, Code-append, Placed-append}
use netdump.Meaning.{has_ethertype, by_version, has_transport, proto_matches, compares}

pub pick-not : (c : Bool) (t f : ℕ) → pick (not c) t f ≡ pick c f t
pick-not true t f = refl
pick-not false t f = refl

module _ (im : Image) where
  open im use {prog, packet, index}

  -- Two branches that end where their own tests say.
  abbrev pub Holds : ℕ → List Event → Type 0
  Holds n es = Code prog index n es × Placed index n es

  pub Holds-append :
      (n : ℕ) (es ds : List Event) → Holds n (es ++ ds) → Holds n es × Holds (advance n es) ds
  Holds-append n es ds (c, p) =
      let (c₁, c₂) = Code-append prog index n es ds c in
      let (p₁, p₂) = Placed-append prog index n es ds p in ((c₁, p₁), (c₂, p₂))

  pub ethertype-Goes :
      (e t f : ℕ) {n a x : ℕ}
      → Holds n (ethertype_events e t f)
      → Goes im n a x (pick (has_ethertype packet e) (index t) (index f))
  ethertype-Goes e t f ((e₀, (e₁, rt, rf, _)), _) =
      Goes-abs_h im 12 e₀ (jeq_picks im e t f e₁ rt rf)

  -- The test of the version: IPv4 goes on at the label `l`, IPv6 behind the fragment.
  pub dispatch-Goes :
      (l t f : ℕ) {n a x : ℕ} (c₄ c₆ : Bool)
      → Holds n (dispatch_events l f)
      → ((a' x' : ℕ) → Goes im (index l) a' x' (pick c₄ t (index f)))
      → ((a' x' : ℕ) → Goes im (n + 1 + 1 + 1) a' x' (pick c₆ t (index f)))
      → Goes im n a x (pick (by_version packet c₄ c₆) t (index f))
  dispatch-Goes l t f c₄ c₆ ((e₀, (e₁, r₁, s₁, (e₂, r₂, s₂, _))), (p, (q, _))) g₄ g₆ =
      Goes-abs_h im 12 e₀ (
        Goes-jeq im ethertype_ip l (l + 1) e₁ r₁ s₁ (λ h. rw h (g₄ _ _))
          (λ h.
            rw (h, p)
              (Goes-jeq im ethertype_ipv6 (l + 1 + 1) f e₂ r₂ s₂ (λ k. rw (k, q) (g₆ _ _))
                (λ k. rw k (Goes-here im _ _ _)))))

  -- One byte of the packet, loaded and compared.
  pub byte-Goes :
      (o k t f : ℕ) {n a x : ℕ}
      → Holds n (ins (ld_abs_b o) ∷ jump (jeq k) t f ∷ [])
      → Goes im n a x (pick (read_u8 packet o == k) (index t) (index f))
  byte-Goes o k t f ((e₀, (e₁, rt, rf, _)), _) = Goes-abs_b im o e₀ (jeq_picks im k t f e₁ rt rf)

  transport-Goes :
      (p l t f : ℕ) {n a x : ℕ}
      → Holds n (transport_events p l t f)
      → Goes im n a x (pick (has_transport packet p) (index t) (index f))
  transport-Goes p l t f
        (
          (e₀, (e₁, r₁, s₁, (e₂, r₂, s₂, (e₃, (e₄, r₄, s₄, (e₅, (e₆, r₆, s₆, _))))))),
          (p₁, (p₂, (p₃, _))),
        ) =
      dispatch-Goes l (index t) f (read_u8 packet 23 == p) (read_u8 packet 20 == p)
        ((e₀, (e₁, r₁, s₁, (e₂, r₂, s₂, tt))), (p₁, (p₂, tt)))
        (λ a x. rw p₃ (byte-Goes 23 p t f ((e₅, (e₆, r₆, s₆, tt)), tt)))
        (λ a x. byte-Goes 20 p t f ((e₃, (e₄, r₄, s₄, tt)), tt))

  -- The test of one version only, which leads to the label `l` placed behind it.
  pub guard-Goes :
      (e l t f : ℕ) {n a x : ℕ} (c : Bool)
      → Holds n (ins (ld_abs_h 12) ∷ fresh ∷ jump (jeq e) l f ∷ here l ∷ [])
      → ((a' x' : ℕ) → Goes im (n + 1 + 1) a' x' (pick c (index t) (index f)))
      → Goes im n a x (pick (has_ethertype packet e && c) (index t) (index f))
  guard-Goes e l t f c ((e₀, (e₁, r₁, s₁, _)), (p, _)) g =
      Goes-both im (has_ethertype packet e) c (index l) (index t) (index f)
        (ethertype-Goes e l f ((e₀, (e₁, r₁, s₁, tt)), tt)) (λ a x. rw p (g a x))

  icmp-Goes :
      (e o p l t f : ℕ) {n a x : ℕ}
      → Holds n (icmp_events e o p l t f)
      → Goes im n a x (pick (has_ethertype packet e && read_u8 packet o == p) (index t) (index f))
  icmp-Goes e o p l t f ((e₀, (e₁, r₁, s₁, (e₂, (e₃, r₃, s₃, _)))), (q, _)) =
      guard-Goes e l t f (read_u8 packet o == p) ((e₀, (e₁, r₁, s₁, tt)), (q, tt))
        (λ a x. byte-Goes o p t f ((e₂, (e₃, r₃, s₃, tt)), tt))

  pub proto-Goes :
      (p : Protocol) (l t f : ℕ) {n a x : ℕ}
      → Holds n (proto_events p l t f)
      → Goes im n a x (pick (proto_matches packet p) (index t) (index f))
  proto-Goes ip l t f h = ethertype-Goes ethertype_ip t f h
  proto-Goes ip6 l t f h = ethertype-Goes ethertype_ipv6 t f h
  proto-Goes arp l t f h = ethertype-Goes ethertype_arp t f h
  proto-Goes rarp l t f h = ethertype-Goes ethertype_rarp t f h
  proto-Goes tcp l t f h = transport-Goes ipproto_tcp l t f h
  proto-Goes udp l t f h = transport-Goes ipproto_udp l t f h
  proto-Goes icmp l t f h = icmp-Goes ethertype_ip 23 ipproto_icmp l t f h
  proto-Goes icmp6 l t f h = icmp-Goes ethertype_ipv6 20 ipproto_icmpv6 l t f h

  pub len-Goes :
      (op : RelOp) (len t f : ℕ) {n a x : ℕ}
      → Holds n (len_events op len t f)
      → Goes im n a x (pick (compares op (length packet % 2 ^ 32) len) (index t) (index f))
  len-Goes eq len t f ((e₀, (e₁, rt, rf, _)), _) = Goes-len im e₀ (jeq_picks im len t f e₁ rt rf)
  len-Goes ne len t f ((e₀, (e₁, rt, rf, _)), _) =
      Goes-len im e₀ (rw pick-not (jeq_picks im len f t e₁ rt rf))
  len-Goes gt len t f ((e₀, (e₁, rt, rf, _)), _) = Goes-len im e₀ (jgt_picks im len t f e₁ rt rf)
  len-Goes ge len t f ((e₀, (e₁, rt, rf, _)), _) = Goes-len im e₀ (jge_picks im len t f e₁ rt rf)
  len-Goes lt len t f ((e₀, (e₁, rt, rf, _)), _) =
      Goes-len im e₀ (rw pick-not (jge_picks im len f t e₁ rt rf))
  len-Goes le len t f ((e₀, (e₁, rt, rf, _)), _) =
      Goes-len im e₀ (rw pick-not (jgt_picks im len f t e₁ rt rf))
