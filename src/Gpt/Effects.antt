-- ===== src/Gpt/Effects.antt =====
-- gpt-utils.cpp on a system any of whose calls may fail: what a call leaves of the device, wherever
-- it stops.
use device_blackshark_penros.Base.{
  Bool-cases, Option-cases, ap, arith, inl, inr, leb, refl, some, ℕ, ◌&&◌, ◌+◌, ◌-◌, ◌<◌, ◌∙◌, ◌≡◌,
  ◌≤◌, ◌⊎◌,
}
use device_blackshark_penros.Gpt.Bytes.{Buf, overlay, overlay-outside, shift, u32_mod}
use device_blackshark_penros.Gpt.Device.{
  Device, Io, Outcome, System, Transfer, and_then, blk_rw, calloc, done, end_offset, endless,
  failed, get_block_size, is_negative, least, malloc, moves, next_turn, reading, rw_fails,
  seek_fails, transferred, unsynced, writing,
}
use device_blackshark_penros.Gpt.Reliable.{written}
use device_blackshark_penros.Gpt.Relinking.{apart}

-- What holds after a call that returns, and what after one that stops.
abbrev pub Leaves {ℓ} :
    {A : Type ℓ} → (A → Device → Type 0) → (Device → Type 0) → Outcome A × Device → Type 0
Leaves Q F (done a, d) = Q a d
Leaves Q F (failed, d) = F d
Leaves Q F (endless, d) = F d

module _ {A B : Type 0} where
  -- The rule for a chain of calls.
  pub Leaves-and_then :
      (Q : A → Device → Type 0) (R : B → Device → Type 0) (F : Device → Type 0)
      (r : Outcome A × Device) (f : A → Io B)
      → Leaves Q F r
      → ((a : A) (d : Device) → Q a d → Leaves R F (f a d))
      → Leaves R F (and_then r f)
  Leaves-and_then Q R F (done a, d) f q rest = rest a d q
  Leaves-and_then Q R F (failed, d) f q rest = q
  Leaves-and_then Q R F (endless, d) f q rest = q

-- The bytes of a region of the device.
abbrev pub SameRegion : ℕ → ℕ → Device → Device → Type 0
SameRegion at m d d' = (d'.size ≡ d.size) × ((i : ℕ) → i < m → d'.byte (at + i) ≡ d.byte (at + i))

pub SameRegion-trans :
    (at m : ℕ) (a b c : Device) → SameRegion at m a b → SameRegion at m b c → SameRegion at m a c
SameRegion-trans at m a b c (s, f) (t, g) = (t ∙ s, λ i lt. g i lt ∙ f i lt)

-- A system whose calls may fail, but whose transfers move all bytes where they succeed, and whose
-- device keeps the size of its block.
pub record IsWhole (sys : System) (blk_size : ℕ) : Type 0 where
  pub sized : (t b : ℕ) → sys.block_size t ≡ some b → b ≡ blk_size
  pub whole : (t n : ℕ) → sys.transfer t ≡ moves n → u32_mod ≤ n

-- What a failed transfer can have written: the bytes of the region, and no others.
abbrev pub Touched : ℕ → ℕ → Device → Device → Type 0
Touched offset len d d' =
    (at m : ℕ) → (at + m ≤ offset) ⊎ (offset + len ≤ at) → SameRegion at m d d'

Touched-short :
    (offset len n : ℕ) (buf : Buf) (d : Device)
    → n ≤ len
    → Touched offset len d (record d { byte = overlay d.byte offset buf n })
Touched-short offset len n buf d le at m (inl before) =
    (refl, λ i lt. overlay-outside d.byte offset buf n (at + i) (inl (omega arith)))
Touched-short offset len n buf d le at m (inr after) =
    (refl, λ i lt. overlay-outside d.byte offset buf n (at + i) (inr (omega arith)))

pub Touched-none : (offset len : ℕ) (d : Device) → Touched offset len d (next_turn d)
Touched-none offset len d at m apart = (refl, λ i lt. refl)

module _ (sys : System) (blk_size : ℕ) (whole : IsWhole sys blk_size) where
  reads-Leaves :
      (t : Transfer) (offset : ℕ) (buf : Buf) (len : ℕ) (d : Device)
      → ((n : ℕ) → t ≡ moves n → u32_mod ≤ n)
      → len ≤ u32_mod
      → Leaves
          (λ b d'. (b ≡ overlay buf 0 (shift d.byte offset) len) × (d' ≡ d))
          (λ d'. d' ≡ d)
          (transferred t reading offset buf len d)
  unfolding transferred
  reads-Leaves seek_fails offset buf len d all fits = refl
  reads-Leaves rw_fails offset buf len d all fits = refl
  reads-Leaves (unsynced n) offset buf len d all fits = refl
  reads-Leaves (moves n) offset buf len d all fits =
      let k : least n len ≡ len = ground (arith, all n refl) in (rw k refl, refl)

  writes-Leaves :
      (t : Transfer) (offset : ℕ) (buf : Buf) (len : ℕ) (d : Device)
      → ((n : ℕ) → t ≡ moves n → u32_mod ≤ n)
      → len ≤ u32_mod
      → Leaves
          (λ b d'. d' ≡ record d { byte = overlay d.byte offset buf len })
          (λ d'. Touched offset len d d')
          (transferred t writing offset buf len d)
  unfolding transferred
  writes-Leaves seek_fails offset buf len d all fits = λ at m apart. (refl, λ i lt. refl)
  writes-Leaves rw_fails offset buf len d all fits = λ at m apart. (refl, λ i lt. refl)
  writes-Leaves (unsynced n) offset buf len d all fits =
      Touched-short offset len (least n len) buf d (ground arith)
  writes-Leaves (moves n) offset buf len d all fits =
      let k : least n len ≡ len = ground (arith, all n refl) in rw k refl

  pub blk_rw-Reads :
      (offset : ℕ) (buf : Buf) (len : ℕ) (d : Device)
      → len ≤ u32_mod
      → Leaves
          (λ b d'. (b ≡ overlay buf 0 (shift d.byte offset) len) × (d' ≡ next_turn d))
          (λ d'. d' ≡ next_turn d)
          (blk_rw sys reading offset buf len d)
  unfolding blk_rw
  blk_rw-Reads offset buf len d fits = elim (Bool-cases (is_negative offset)) [
    | inl e ↦ rw e refl
    | inr e ↦
        rw e (
          reads-Leaves (sys.transfer d.turn) offset buf len (next_turn d) (whole.whole d.turn) fits)
  ]

  pub blk_rw-Writes :
      (offset : ℕ) (buf : Buf) (len : ℕ) (d : Device)
      → len ≤ u32_mod
      → Leaves
          (λ b d'. d' ≡ written (next_turn d) offset buf len)
          (λ d'. Touched offset len d d')
          (blk_rw sys writing offset buf len d)
  unfolding blk_rw
  blk_rw-Writes offset buf len d fits = elim (Bool-cases (is_negative offset)) [
    | inl e ↦ rw e (Touched-none offset len d)
    | inr e ↦
        rw e (
          writes-Leaves (sys.transfer d.turn) offset buf len (next_turn d) (whole.whole d.turn)
            fits)
  ]

  pub get_block_size-Leaves :
      (d : Device)
      → Leaves (λ b d'. (b ≡ blk_size) × (d' ≡ d)) (λ d'. d' ≡ d) (get_block_size sys d)
  unfolding get_block_size
  get_block_size-Leaves d = elim (Option-cases (sys.block_size d.turn)) [
    | inl e ↦ rw e refl
    | inr (b, e) ↦ rw e (whole.sized d.turn b e, refl)
  ]

  pub malloc-Leaves :
      (d : Device)
      → Leaves (λ b d'. (b ≡ sys.fresh d.turn) × (d' ≡ d)) (λ d'. d' ≡ d) (malloc sys d)
  unfolding malloc
  malloc-Leaves d = elim (Bool-cases (sys.allocates d.turn)) [
    | inl e ↦ rw e (refl, refl)
    | inr e ↦ rw e refl
  ]

  pub calloc-Leaves :
      (d : Device) → Leaves (λ b d'. (b ≡ (λ i. 0)) × (d' ≡ d)) (λ d'. d' ≡ d) (calloc sys d)
  unfolding calloc
  calloc-Leaves d = elim (Bool-cases (sys.allocates d.turn)) [
    | inl e ↦ rw e (refl, refl)
    | inr e ↦ rw e refl
  ]

  pub end_offset-Leaves :
      (size : ℕ) (d : Device)
      → d.size ≡ size
      → Leaves (λ b d'. (b ≡ size - blk_size) × (d' ≡ d)) (λ d'. d' ≡ d) (end_offset sys blk_size d)
  unfolding end_offset
  end_offset-Leaves size d sized = elim (Bool-cases (sys.seeks_end d.turn && leb blk_size d.size)) [
    | inl e ↦ rw e (ap (λ (s : ℕ). s - blk_size) sized, refl)
    | inr e ↦ rw e refl
  ]

-- What a call that only reads leaves.
abbrev pub Quiet : Device → Device → Type 0
Quiet d d' = (d'.size ≡ d.size) × (d'.byte ≡ d.byte)

module _ {A B : Type 0} where
  -- A call whose value and device are known where it returns.
  pub Leaves-step :
      (R : B → Device → Type 0) (F G : Device → Type 0) (v : A) (e : Device)
      (r : Outcome A × Device) (f : A → Io B)
      → ((d : Device) → G d → F d)
      → Leaves (λ a d'. (a ≡ v) × (d' ≡ e)) G r
      → Leaves R F (f v e)
      → Leaves R F (and_then r f)
  Leaves-step R F G v e (done a, d) f weaken (p, q) rest = rw (p, q) rest
  Leaves-step R F G v e (failed, d) f weaken q rest = weaken d q
  Leaves-step R F G v e (endless, d) f weaken q rest = weaken d q

  -- A call of which only the device is known.
  pub Leaves-done :
      (R : B → Device → Type 0) (F G : Device → Type 0) (e : Device) (r : Outcome A × Device)
      (f : A → Io B)
      → ((d : Device) → G d → F d)
      → Leaves (λ a d'. d' ≡ e) G r
      → ((a : A) → Leaves R F (f a e))
      → Leaves R F (and_then r f)
  Leaves-done R F G e (done a, d) f weaken q rest = rw q (rest a)
  Leaves-done R F G e (failed, d) f weaken q rest = weaken d q
  Leaves-done R F G e (endless, d) f weaken q rest = weaken d q

module _ {A : Type 0} where
  pub Leaves-weaken :
      (Q R : A → Device → Type 0) (F G : Device → Type 0) (r : Outcome A × Device)
      → ((a : A) (d : Device) → Q a d → R a d)
      → ((d : Device) → F d → G d)
      → Leaves Q F r
      → Leaves R G r
  Leaves-weaken Q R F G (done a, d) done_ failed_ q = done_ a d q
  Leaves-weaken Q R F G (failed, d) done_ failed_ q = failed_ d q
  Leaves-weaken Q R F G (endless, d) done_ failed_ q = failed_ d q
