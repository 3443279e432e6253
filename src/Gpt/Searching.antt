-- ===== src/Gpt/Searching.antt =====
-- The search of gpt-utils.cpp for a partition, and the loops that end.
use device_blackshark_penros.Base.{
  Bool, Bool-cases, List, Option, arith, false, inl, inr, ltb, ltb→le, ltb→lt, none, refl, some,
  suc, true, zero, ℕ, ◌*◌, ◌+◌, ◌-◌, ◌<◌, ◌≡◌,
}
use device_blackshark_penros.Gpt.Bytes.{Buf}
use device_blackshark_penros.Gpt.Table.{
  gpt_pentry_seek, max_name_length, name_at, names_partition, partition_name_offset, seek_from,
}

-- What the search answers: the first entry whose name fits, with its number, or that no entry of
-- the array has one. `at` is where the name of the first entry stands.
pub data Sought (ptn_name : List ℕ) (h : Buf) (pentries_end pentry_size at : ℕ)
    (r : Option (Option ℕ)) : Type 0 where
  hit :
      (k : ℕ)
      → r ≡ some (some (at + k * pentry_size - partition_name_offset))
      → at + k * pentry_size < pentries_end
      → names_partition ptn_name (name_at h (at + k * pentry_size) max_name_length) ≡ true
      → ((j : ℕ)
          → j < k
          → names_partition ptn_name (name_at h (at + j * pentry_size) max_name_length) ≡ false)
      → Sought ptn_name h pentries_end pentry_size at r
  miss :
      r ≡ some none
      → ((j : ℕ)
          → at + j * pentry_size < pentries_end
          → names_partition ptn_name (name_at h (at + j * pentry_size) max_name_length) ≡ false)
      → Sought ptn_name h pentries_end pentry_size at r

module _ (ptn_name : List ℕ) (h : Buf) (pentries_end pentry_size : ℕ) where
  abbrev Fits_at : ℕ → Bool
  Fits_at at = names_partition ptn_name (name_at h at max_name_length)

  next-at : (at k : ℕ) → at + pentry_size + k * pentry_size ≡ at + suc k * pentry_size
  next-at at k = grind arith

  all-after :
      (at n : ℕ)
      → Fits_at at ≡ false
      → ((j : ℕ) → j < n → Fits_at (at + pentry_size + j * pentry_size) ≡ false)
      → (j : ℕ) → j < suc n
      → Fits_at (at + j * pentry_size) ≡ false
  all-after at n now later zero lt =
      let same : at + 0 * pentry_size ≡ at = omega arith in rw same now
  all-after at n now later (suc j) lt = rw (← next-at at j) (later j (omega arith))

  none-after :
      (at : ℕ)
      → Fits_at at ≡ false
      → ((j : ℕ)
          → at + pentry_size + j * pentry_size < pentries_end
          → Fits_at (at + pentry_size + j * pentry_size) ≡ false)
      → (j : ℕ) → at + j * pentry_size < pentries_end
      → Fits_at (at + j * pentry_size) ≡ false
  none-after at now later zero lt =
      let same : at + 0 * pentry_size ≡ at = omega arith in rw same now
  none-after at now later (suc j) lt = rw (← next-at at j) (later j (rw (next-at at j) lt))

  Sought-after :
      (at : ℕ) (r : Option (Option ℕ))
      → Fits_at at ≡ false
      → at < pentries_end
      → Sought ptn_name h pentries_end pentry_size (at + pentry_size) r
      → Sought ptn_name h pentries_end pentry_size at r
  Sought-after at r now inside (hit k e lt fits before) =
      hit (suc k) (rw (← next-at at k) e) (rw (← next-at at k) lt) (rw (← next-at at k) fits)
        (λ j below. all-after at k now before j below)
  Sought-after at r now inside (miss e none_) = miss e (none-after at now none_)

  -- The search ends where an entry is not empty.
  pub seek_from-Sought :
      (fuel at : ℕ)
      → 0 < pentry_size
      → pentries_end < fuel + at
      → 0 < fuel
      → Sought ptn_name h pentries_end pentry_size at
          (seek_from ptn_name h pentries_end pentry_size fuel at)
  unfolding seek_from
  seek_from-Sought zero at pos enough some_ = absurd (omega arith)
  seek_from-Sought (suc fuel) at pos enough some_ =
      let start : at + 0 * pentry_size ≡ at = omega arith in
      elim (Bool-cases (ltb at pentries_end)) [
        | inr past ↦
            rw past (miss refl (λ j lt. absurd (grind (arith, ltb→le at pentries_end past))))
        | inl inside ↦ rw inside (elim (Bool-cases (Fits_at at)) [
          | inl fits ↦ rw fits (
              hit 0 (rw start refl) (rw start (ltb→lt at pentries_end inside)) (rw start fits)
                (λ j lt. absurd (omega arith)))
          | inr differs ↦ rw differs (
              Sought-after at _ differs (ltb→lt at pentries_end inside) (
                seek_from-Sought fuel (at + pentry_size) pos (omega arith)
                  (omega (arith, ltb→lt at pentries_end inside))))
        ])
      ]

-- Where an entry is not empty the search ends, and answers the first entry from the given offset on
-- whose name is the partition's or its backup's, or NULL where no entry of the array has one.
pub gpt_pentry_seek-Sought :
    (ptn_name : List ℕ) (h : Buf) (pentries_start pentries_end pentry_size : ℕ)
    → 0 < pentry_size
    → Sought ptn_name h pentries_end pentry_size
        (pentries_start + partition_name_offset)
        (gpt_pentry_seek ptn_name h pentries_start pentries_end pentry_size)
unfolding gpt_pentry_seek
gpt_pentry_seek-Sought ptn_name h pentries_start pentries_end pentry_size pos =
    seek_from-Sought ptn_name h pentries_end pentry_size (suc pentries_end)
      (pentries_start + partition_name_offset) pos (omega arith) (omega arith)
