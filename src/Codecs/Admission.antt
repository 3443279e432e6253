-- ===== src/Codecs/Admission.antt =====
-- When an advertised capability of BluetoothAudioCodecs.cpp admits a configuration.
use device_blackshark_penros.Base.{
  Bool, List, [], arith, false, if_neg, if_pos, inl, inr, leb, refl, some, sym, true, ℕ, ◌&&◌, ◌↔◌,
  ◌∙◌, ◌∷◌, ◌≡◌, ◌≤◌, ◌⊎◌,
}
use device_blackshark_penros.Codecs.Capabilities.{
  Capabilities, aac_capabilities, aptx_capabilities, ldac_capabilities, opus_capabilities,
  sbc_capabilities,
}
use device_blackshark_penros.Codecs.Checks.{contained_in_vector}
use device_blackshark_penros.Session.Codec.{
  CodecSpecific, aac_config, aptx_config, ldac_config, opus_config, sbc_config,
}

-- A value is one of those in the list.
abbrev pub IsIn : {A : Type 0} → A → List A → Type 0
IsIn a [] = ⊥
IsIn a (x ∷ xs) = (x ≡ a) ⊎ IsIn a xs

pub contained-IsIn :
    {A : Type 0} (eq : Discrete A) (xs : List A) (a : A)
    → (contained_in_vector eq xs a ≡ true) ↔ IsIn a xs
unfolding contained_in_vector
contained-IsIn eq [] a = (λ h. absurd (ground arith), λ h. absurd h)
contained-IsIn eq (x ∷ xs) a =
    let (to, from) = contained-IsIn eq xs a in
    elim (eq x a) [
      | yes e ↦ (λ h. inl e, λ h. if_pos (eq x a) e _ _)
      | no ne ↦ (
        λ h. inr (to (sym (if_neg (eq x a) ne _ _) ∙ h)),
        λ h. if_neg (eq x a) ne _ _ ∙ from (elim h [ inl e ↦ absurd (ne e) | inr i ↦ i ]),
      )
    ]

pub and-true :
    (a b : Bool) {P Q : Type 0} → (a ≡ true) ↔ P → (b ≡ true) ↔ Q → ((a && b) ≡ true) ↔ (P × Q)
and-true true b (p, p') (q, q') = (λ h. (p refl, q h), λ h. q' h.1)
and-true false b (p, p') (q, q') = (λ h. absurd (ground arith), λ h. p' h.0)

leb-true : (a b : ℕ) → (leb a b ≡ true) ↔ (a ≤ b)
leb-true a b = ground arith

-- A product that nests as `&&` does.
infixl 3 ◌⊓◌
abbrev pub ◌⊓◌ : Type 0 → Type 0 → Type 0
A ⊓ B = A × B

-- An advertised alternative admits a configuration: the same codec's, with each field in the list of
-- the capability that is for it, and with its range of bit pools inside the capability's.
abbrev pub Admits : Capabilities → CodecSpecific → Type 0
Admits (sbc_capabilities k) (sbc_config c) =
    IsIn c.sample_rate_hz k.sample_rate_hz
    ⊓ IsIn c.block_length k.block_length
    ⊓ IsIn c.num_subbands k.num_subbands
    ⊓ IsIn c.bits_per_sample k.bits_per_sample
    ⊓ IsIn c.channel_mode k.channel_mode
    ⊓ IsIn c.alloc_method k.alloc_method
    ⊓ (c.min_bitpool ≤ c.max_bitpool)
    ⊓ (k.min_bitpool ≤ c.min_bitpool)
    ⊓ (c.max_bitpool ≤ k.max_bitpool)
Admits (aac_capabilities k) (aac_config c) =
    IsIn c.sample_rate_hz k.sample_rate_hz
    ⊓ IsIn c.bits_per_sample k.bits_per_sample
    ⊓ IsIn c.channel_mode k.channel_mode
    ⊓ IsIn c.object_type k.object_type
    ⊓ (c.variable_bit_rate_enabled ≡ true → k.variable_bit_rate_supported ≡ true)
Admits (ldac_capabilities k) (ldac_config c) =
    IsIn c.sample_rate_hz k.sample_rate_hz
    ⊓ IsIn c.bits_per_sample k.bits_per_sample
    ⊓ IsIn c.channel_mode k.channel_mode
    ⊓ IsIn c.quality_index k.quality_index
Admits (aptx_capabilities k) (aptx_config c) =
    IsIn c.sample_rate_hz k.sample_rate_hz
    ⊓ IsIn c.bits_per_sample k.bits_per_sample
    ⊓ IsIn c.channel_mode k.channel_mode
Admits (opus_capabilities k) (opus_config (some c)) =
    IsIn c.sampling_frequency_hz k.sampling_frequency_hz
    ⊓ IsIn c.frame_duration_us k.frame_duration_us
    ⊓ IsIn c.channel_mode k.channel_mode
Admits _ _ = ⊥

pub never : {A : Type 0} → ◌≡◌ {A = Bool} false true → A
never h = absurd (ground arith)

-- The next test of a chain: the chain so far, and the list that the test looks in.
module _ {A : Type 0} (eq : Discrete A) (xs : List A) (a : A) where
  pub next-IsIn :
      {b : Bool} {P : Type 0}
      → (b ≡ true) ↔ P
      → ((b && contained_in_vector eq xs a) ≡ true) ↔ (P ⊓ IsIn a xs)
  next-IsIn {b} f = and-true b (contained_in_vector eq xs a) f (contained-IsIn eq xs a)

pub next-le :
    (m n : ℕ) {b : Bool} {P : Type 0} → (b ≡ true) ↔ P → ((b && leb m n) ≡ true) ↔ (P ⊓ (m ≤ n))
next-le m n {b} f = and-true b (leb m n) f (leb-true m n)
