-- ===== src/Gpt/Sealing.antt =====
-- Headers of gpt-utils.cpp: what gpt_get_state sees of a header whose CRC was taken again, and which
-- bytes of a header its state depends on.
use device_blackshark_penros.Base.{
  List, arith, false, if◌then◌else◌, inl, refl, suc, true, zero, ℕ, ◌<◌, ◌==◌, ◌∙◌, ◌≡◌, ◌≤◌, ◌⊎◌,
}
use device_blackshark_penros.Gpt.Bytes.{
  Buf, bytes_from-cong, get_4_bytes, get_4_bytes-cong, get_4_bytes-put, overlay, put-put,
  put_4_bytes, put_4_bytes-outside, u32_mod,
}
use device_blackshark_penros.Gpt.Header.{
  cleared, gpt_bad_signature, gpt_ok, gpt_signature, header_crc, header_crc_offset,
  header_size_offset, header_state, same_bytes, sealed, signature_size,
}

pub same_bytes-cong :
    (f g s : Buf) (n : ℕ) → ((i : ℕ) → i < n → f i ≡ g i) → same_bytes f s n ≡ same_bytes g s n
unfolding same_bytes
same_bytes-cong f g s zero h = refl
same_bytes-cong f g s (suc n) h =
    rw (h n (omega arith), same_bytes-cong f g s n (λ i lt. h i (omega arith))) refl

pub cleared-cong :
    (f g : Buf) (n : ℕ)
    → ((i : ℕ) → i < n → f i ≡ g i)
    → (i : ℕ) → i < n
    → cleared f i ≡ cleared g i
unfolding cleared put_4_bytes
cleared-cong f g n h i lt = ground (arith, h i lt)

module _ (crc32 : List ℕ → ℕ) where
  pub header_crc-cong :
      (f g : Buf) (n : ℕ)
      → 20 ≤ n
      → get_4_bytes f header_size_offset ≤ n
      → ((i : ℕ) → i < n → f i ≡ g i)
      → header_crc crc32 f ≡ header_crc crc32 g
  unfolding header_crc
  header_crc-cong f g n big le h =
      rw
        (
          bytes_from-cong (cleared f) (cleared g) 0 (get_4_bytes f header_size_offset)
              (λ i l u. cleared-cong f g n h i (omega arith)),
          get_4_bytes-cong f g header_size_offset n (omega arith) h,
        )
        refl

  -- The state of a header is that of its block, where the header is no longer.
  pub header_state-cong :
      (f g : Buf) (n : ℕ)
      → 20 ≤ n
      → get_4_bytes f header_size_offset ≤ n
      → ((i : ℕ) → i < n → f i ≡ g i)
      → header_state crc32 f ≡ header_state crc32 g
  unfolding header_state
  header_state-cong f g n big le h =
      rw
        (
          header_crc-cong f g n big le h,
          get_4_bytes-cong f g header_crc_offset n (omega arith) h,
          same_bytes-cong f g gpt_signature signature_size (λ i lt. h i (omega arith)),
        )
        refl

  cleared-put :
      (h : Buf) (c : ℕ) → cleared (put_4_bytes (cleared h) header_crc_offset c) ≡ cleared h
  unfolding cleared
  cleared-put h c = put-put (cleared h) header_crc_offset c 0 ∙ put-put h header_crc_offset 0 0

  cleared-sealed : (h : Buf) → cleared (sealed crc32 h) ≡ cleared h
  unfolding sealed
  cleared-sealed h = cleared-put h (header_crc crc32 h)

  pub sealed-outside : (h : Buf) (i : ℕ) → (i < 16) ⊎ (20 ≤ i) → sealed crc32 h i ≡ h i
  unfolding sealed cleared
  sealed-outside h i out =
      put_4_bytes-outside (cleared h) header_crc_offset (header_crc crc32 h) i out
      ∙ put_4_bytes-outside h header_crc_offset 0 i out

  pub sealed-size :
      (h : Buf) → get_4_bytes (sealed crc32 h) header_size_offset ≡ get_4_bytes h header_size_offset
  sealed-size h =
      get_4_bytes-cong (sealed crc32 h) h header_size_offset 16 (omega arith)
        (λ i lt. sealed-outside h i (inl lt))

  pub header_crc-sealed : (h : Buf) → header_crc crc32 (sealed crc32 h) ≡ header_crc crc32 h
  unfolding header_crc
  header_crc-sealed h = rw (sealed-size h, cleared-sealed h) refl

  -- A sealed header has a right CRC, so that its state is that of its signature.
  pub header_state-sealed :
      (h : Buf)
      → ((l : List ℕ) → crc32 l < u32_mod)
      → header_state crc32 (sealed crc32 h)
        ≡ (if same_bytes h gpt_signature signature_size then gpt_ok else gpt_bad_signature)
  unfolding header_state
  header_state-sealed h bounded =
      let got : get_4_bytes (sealed crc32 h) header_crc_offset ≡ header_crc crc32 h =
        unfold sealed header_crc in get_4_bytes-put (cleared h) header_crc_offset _ (bounded _) in
      let same : (header_crc crc32 h == header_crc crc32 h) ≡ true = ground arith in
      rw
        (
          header_crc-sealed h,
          got,
          same,
          same_bytes-cong (sealed crc32 h) h gpt_signature signature_size
              (λ i lt. sealed-outside h i (inl (omega arith))),
        )
        refl

pub signed-same : (h : Buf) → same_bytes (overlay h 0 gpt_signature 9) gpt_signature 9 ≡ true
unfolding same_bytes overlay
signed-same h = ground arith

pub zeroed-differs : (h : Buf) → same_bytes (overlay h 0 (λ i. 0) 1) gpt_signature 9 ≡ false
unfolding same_bytes overlay gpt_signature
zeroed-differs h = ground arith
