-- ===== src/Ring/Opened.antt =====
-- The socket that `open_with_options` returns is the start of the ring's reader.
use netdump.Base.{
  ℕ, ◌<◌, ◌≡◌, refl, sym, ◌∙◌, ap, subst, Bool, true, false, Option, none, some, List, [], arith,
}
use netdump.Bpf.{Instruction}
use netdump.Ring.Raw.{RawBpfInsn, raw_option}
use netdump.Ring.Block.{is_user}
use netdump.Ring.Reader.{AfPacketSocket}
use netdump.Ring.Size.{OpenOptions}
use netdump.Ring.System.{System, IsOpened}
use netdump.Ring.Open.{
  attach, attach_option, Call, Kernel, Io, Outcome, ok, error, ◌>>=◌, pure, chosen_interface,
  prepare, make_ring, open_with_options, socket_of,
}

-- A socket before anything was retired, released or delivered.
abbrev pub fresh_system : AfPacketSocket → System
fresh_system sock = record { sock = sock; retired = 0; released = 0; produced = []; delivered = [] }

abbrev pub is_some {ℓ} : {A : Type ℓ} → Option A → Bool
is_some none = false
is_some (some a) = true

pub is_some-raw_option : (o : Option (List Instruction)) → is_some (raw_option o) ≡ is_some o
is_some-raw_option none = refl
is_some-raw_option (some prog) = refl

inject : {A : Type 0} {a b : A} → ok a ≡ ok b → a ≡ b
inject {A} {a} q = ap of q
  where
    of : Outcome A → A
    of (ok x) = x
    of (error e) = a

module _ {A B : Type 0} where
  bind-ok :
      (m : Io A) (f : A → Io B) {x : B}
      → (m >>= f).1 ≡ ok x
      → (a : A) × (m.1 ≡ ok a) × ((f a).1 ≡ ok x)
  bind-ok (made, ok a) f h = (a, refl, h)
  bind-ok (made, error e) f {x = x} h = absurd (apart h)
    where
      apart : (let z : Outcome B = error e in z) ≡ ok x → ⊥
      apart q = ground arith

module _ (k : Kernel) where
  attach_option-is_some :
      (o : Option (List RawBpfInsn)) {b : Bool} → (attach_option k o).1 ≡ ok b → b ≡ is_some o
  attach_option-is_some none h = sym (inject h)
  attach_option-is_some (some program) h =
      let (u, e, last) = bind-ok (attach k program) (λ u. pure true) h in sym (inject last)

  pub socket-at :
      (name : List ℕ) (options : OpenOptions) {calls : List Call} {sock : AfPacketSocket}
      → open_with_options k name options ≡ (calls, ok sock)
      → (i : ℕ) × (socket_of k options i (is_some options.filter) ≡ sock)
  unfolding open_with_options
  socket-at name options {sock = sock} h =
      let (chosen, found, e) =
        bind-ok (chosen_interface k name) _ (ap (λ (z : Io AfPacketSocket). z.1) h) in
      let (attached, prepared, made) = bind-ok (prepare k name options chosen) _ e in
      let (u, ring, last) =
        bind-ok (make_ring k options) (λ u. pure (socket_of k options chosen.0 attached)) made in
      let (v, bound, attaches) = bind-ok _ (λ v. attach_option k options.filter) prepared in
      (
        chosen.0,
        ap (socket_of k options chosen.0) (sym (attach_option-is_some options.filter attaches))
            ∙ inject last,
      )

  -- Where `open_with_options` succeeds, with at least one block and a ring that is mapped with every
  -- block the kernel's, its socket is one that the reader starts from, with the number of blocks asked
  -- for, and it says that the kernel filters exactly where a filter was given.
  pub open-IsOpened :
      (name : List ℕ) (options : OpenOptions) {calls : List Call} {sock : AfPacketSocket}
      → open_with_options k name options ≡ (calls, ok sock)
      → 0 < options.block_nr
      → ((i : ℕ) → is_user (k.fresh i) ≡ false)
      → IsOpened (fresh_system sock)
        × (sock.block_nr ≡ options.block_nr)
        × (sock.kernel_filter_attached ≡ is_some options.filter)
  open-IsOpened name options h some_blocks all_kernel =
      let (i, e) = socket-at name options h in
      subst
        (λ (s : AfPacketSocket).
          IsOpened (fresh_system s)
          × (s.block_nr ≡ options.block_nr)
          × (s.kernel_filter_attached ≡ is_some options.filter))
        e
        (
          record {
            some_blocks = some_blocks;
            no_cursor = refl;
            first_block = refl;
            first_filled = refl;
            all_kernel = all_kernel;
            none_retired = refl;
            none_released = refl;
            none_produced = refl;
            none_delivered = refl;
          },
          refl,
          refl,
        )
