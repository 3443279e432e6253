-- ===== src/Gpt/Swapping.antt =====
-- The swap of the boot chain of gpt-utils.cpp: the entries of the table change places.
use device_blackshark_penros.Base.{
  Bool, Bool-cases, List, Option, [], arith, false, inl, inr, none, refl, some, true, ℕ, ◌*◌, ◌+◌,
  ◌-◌, ◌<◌, ◌∙◌, ◌∷◌, ◌≡◌,
}
use device_blackshark_penros.Gpt.Bytes.{Buf, map_some}
use device_blackshark_penros.Gpt.Rearranging.{
  Rearranges, Rearranges-same, Rearranges-trans, swap_entries-Rearranges,
}
use device_blackshark_penros.Gpt.Searching.{gpt_pentry_seek-Sought, hit, miss}
use device_blackshark_penros.Gpt.Table.{
  gpt_boot_chain_swap, gpt_pentry_seek, is_left_out, ptn_entry_size, ptn_swap_list, swap_all,
  swap_entries, swap_partition, swap_result, swap_step,
}

-- One name: either the table stays, or two of its entries change places.
pub data Swapped (n : ℕ) (h : Buf) (r : Option (Option Buf)) : Type 0 where
  unswapped : r ≡ some none → Swapped n h r
  swapped : (h' : Buf) → r ≡ some (some h') → Rearranges n h h' → Swapped n h r

-- What follows the first entry that is found.
swap_second :
    (name : List ℕ) (n : ℕ) (h : Buf) (a e : ℕ)
    → e ≡ a * 128
    → a < n
    → Swapped n h (elim (gpt_pentry_seek name h (e + 128) (n * 128) 128) [
      | none ↦ none
      | some none ↦ some none
      | some (some ptn_bak_entry) ↦ some (some (swap_entries h e ptn_bak_entry))
    ])
swap_second name n h a e at in_ =
    elim (gpt_pentry_seek-Sought name h (e + 128) (n * 128) 128 (omega arith)) [
      | miss none_ rest ↦ unswapped (rw none_ refl)
      | hit k hits lt fits before ↦
          let at_second : e + 128 + 56 + k * 128 - 56 ≡ (a + 1 + k) * 128 = omega arith in
          rw (hits, at_second, at)
            (swapped (swap_entries h (a * 128) ((a + 1 + k) * 128)) refl
              (swap_entries-Rearranges n h a (a + 1 + k) in_ (omega arith)))
    ]

swap_partition-Swapped :
    (name : List ℕ) (n : ℕ) (h : Buf)
    → Swapped n h (swap_partition name (n * ptn_entry_size) ptn_entry_size h)
unfolding swap_partition
swap_partition-Swapped name n h =
    elim (gpt_pentry_seek-Sought name h 0 (n * ptn_entry_size) ptn_entry_size (omega arith)) [
      | miss e none_ ↦ unswapped (rw (e, swap_partition) refl)
      | hit k e lt fits before ↦
          rw (e, swap_partition) (swap_second name n h k _ (omega arith) (omega arith))
    ]

-- What the loop over the names has made of the table so far.
pub record Exchanged (n : ℕ) (before : Bool × Buf) (r : Option (Bool × Buf)) : Type 0 where
  pub not_found : Bool
  pub entries : Buf
  pub returns : r ≡ some (not_found, entries)
  pub rearranges : Rearranges n before.1 entries
  pub unchanged : not_found ≡ true → (before.0 ≡ true) × (entries ≡ before.1)

Swapped-Exchanged :
    (n : ℕ) (not_found : Bool) (h : Buf) (r : Option (Option Buf))
    → Swapped n h r
    → Exchanged n (not_found, h) (map_some (swap_result (not_found, h)) r)
Swapped-Exchanged n not_found h r (unswapped e) = record {
  not_found = not_found;
  entries = h;
  returns = rw e refl;
  rearranges = Rearranges-same n h;
  unchanged = λ e'. (e', refl);
}
Swapped-Exchanged n not_found h r (swapped h' e moves_) = record {
  not_found = false;
  entries = h';
  returns = rw e refl;
  rearranges = moves_;
  unchanged = λ e'. absurd (ground arith);
}

swap_step-Exchanged :
    (is_ufs : Bool) (name : List ℕ) (n : ℕ) (not_found : Bool) (h : Buf)
    → Exchanged n
        (not_found, h)
        (swap_step is_ufs (n * ptn_entry_size) ptn_entry_size name (not_found, h))
unfolding swap_step
swap_step-Exchanged is_ufs name n not_found h = elim (Bool-cases (is_left_out is_ufs name)) [
  | inl left ↦ record {
    not_found = not_found;
    entries = h;
    returns = rw left refl;
    rearranges = Rearranges-same n h;
    unchanged = λ e'. (e', refl);
  }
  | inr tried ↦ rw tried (Swapped-Exchanged n not_found h _ (swap_partition-Swapped name n h))
]

Exchanged-trans :
    (n : ℕ) (s : Bool × Buf) (r : Option (Bool × Buf)) (f : Bool × Buf → Option (Bool × Buf))
    → Exchanged n s r
    → ((s' : Bool × Buf) → Exchanged n s' (f s'))
    → Exchanged n s (elim r [ none ↦ none | some s' ↦ f s' ])
Exchanged-trans n s r f x rest =
    let y = rest (x.not_found, x.entries) in
    record {
      not_found = y.not_found;
      entries = y.entries;
      returns = rw x.returns y.returns;
      rearranges = Rearranges-trans n s.1 x.entries y.entries x.rearranges y.rearranges;
      unchanged = λ e.
          let (same, kept) = y.unchanged e in
          let (first, kept') = x.unchanged same in (first, kept ∙ kept');
    }

swap_all-Exchanged :
    (is_ufs : Bool) (n : ℕ) (names : List (List ℕ)) (s : Bool × Buf)
    → Exchanged n s (swap_all is_ufs (n * ptn_entry_size) ptn_entry_size names s)
unfolding swap_all
swap_all-Exchanged is_ufs n [] (not_found, h) = record {
  not_found = not_found;
  entries = h;
  returns = refl;
  rearranges = Rearranges-same n h;
  unchanged = λ e. (e, refl);
}
swap_all-Exchanged is_ufs n (name ∷ names) (not_found, h) =
    Exchanged-trans n (not_found, h) _ (swap_all is_ufs (n * ptn_entry_size) ptn_entry_size names)
      (swap_step-Exchanged is_ufs name n not_found h) (swap_all-Exchanged is_ufs n names)

-- On a table of n entries of 128 bytes the swap of the boot chain ends, the entries after it are
-- those before it in other places, and where it answers that no backup was found it has changed
-- nothing.
pub gpt_boot_chain_swap-Exchanged :
    (is_ufs : Bool) (n : ℕ) (h : Buf)
    → Exchanged n (true, h) (gpt_boot_chain_swap is_ufs (n * ptn_entry_size) ptn_entry_size h)
unfolding gpt_boot_chain_swap
gpt_boot_chain_swap-Exchanged is_ufs n h = swap_all-Exchanged is_ufs n ptn_swap_list (true, h)
