-- ===== src/Gpt/Rearranging.antt =====
-- swap_entries of gpt-utils.cpp: where the entries of the table stand after.
use device_blackshark_penros.Base.{
  ==_iff, Bool-cases, ap, arith, false, if◌then◌else◌, inl, inr, ltb, ltb→lt, refl, ℕ, ◌*◌, ◌+◌,
  ◌<◌, ◌==◌, ◌∙◌, ◌≡◌, ◌≤◌,
}
use device_blackshark_penros.Gpt.Bytes.{Buf, overlay, overlay-inside, overlay-outside, shift}
use device_blackshark_penros.Gpt.Table.{ptn_entry_size, swap_entries}

-- Where the entry with a number stands in the table after: a change of places that loses none.
pub record Rearranges (n : ℕ) (h h' : Buf) : Type 0 where
  pub from_ : ℕ → ℕ
  pub to_ : ℕ → ℕ
  pub to-from : (k : ℕ) → to_ (from_ k) ≡ k
  pub from-to : (k : ℕ) → from_ (to_ k) ≡ k
  pub within : (k : ℕ) → k < n → from_ k < n
  pub moved :
      (k i : ℕ)
      → k < n
      → i < ptn_entry_size
      → h' (k * ptn_entry_size + i) ≡ h (from_ k * ptn_entry_size + i)

pub Rearranges-same : (n : ℕ) (h : Buf) → Rearranges n h h
Rearranges-same n h = record {
  from_ = λ k. k;
  to_ = λ k. k;
  to-from = λ k. refl;
  from-to = λ k. refl;
  within = λ k lt. lt;
  moved = λ k i lt below. refl;
}

pub Rearranges-trans :
    (n : ℕ) (f g h : Buf) → Rearranges n f g → Rearranges n g h → Rearranges n f h
Rearranges-trans n f g h r s = record {
  from_ = λ k. r.from_ (s.from_ k);
  to_ = λ k. s.to_ (r.to_ k);
  to-from = λ k. ap s.to_ (r.to-from (s.from_ k)) ∙ s.to-from k;
  from-to = λ k. ap r.from_ (s.from-to (r.to_ k)) ∙ r.from-to k;
  within = λ k lt. r.within (s.from_ k) (s.within k lt);
  moved = λ k i lt below. s.moved k i lt below ∙ r.moved (s.from_ k) i (s.within k lt) below;
}

exchange : ℕ → ℕ → ℕ → ℕ
exchange a b k = if k == a then b else if k == b then a else k

exchange-exchange : (a b k : ℕ) → exchange a b (exchange a b k) ≡ k
unfolding exchange
exchange-exchange a b k = ground arith

pub after : (k b i : ℕ) → (k == b) ≡ false → ltb k b ≡ false → b * 128 + 128 ≤ k * 128 + i
after k b i differs above = ground arith

-- The two choices of the copies are the exchange.
chosen :
    (h : Buf) (a b k i : ℕ)
    → (if k == b
        then h (a * ptn_entry_size + i)
        else if k == a
        then h (b * ptn_entry_size + i)
        else h (k * ptn_entry_size + i))
      ≡ h (exchange a b k * ptn_entry_size + i)
unfolding exchange
chosen h a b k i = elim (Bool-cases (k == b)) [
  | inl e ↦ elim (Bool-cases (k == a)) [
    | inl f ↦ let same : a ≡ b = ground arith in rw (e, f) (ap (λ (x : ℕ). h (x * 128 + i)) same)
    | inr f ↦ rw (e, f) refl
  ]
  | inr e ↦ elim (Bool-cases (k == a)) [ inl f ↦ rw (e, f) refl | inr f ↦ rw (e, f) refl ]
]

-- An entry that a copy goes to, and one that it does not.
copied :
    (base from : Buf) (b k i : ℕ)
    → i < ptn_entry_size
    → overlay base (b * ptn_entry_size) from ptn_entry_size (k * ptn_entry_size + i)
      ≡ (if k == b then from i else base (k * ptn_entry_size + i))
copied base from b k i lt = elim (Bool-cases (k == b)) [
  | inl same ↦
      let e = (==_iff k b).0 same in
      rw (same, e) (overlay-inside base (b * ptn_entry_size) from ptn_entry_size i lt)
  | inr differs ↦ rw differs (elim (Bool-cases (ltb k b)) [
    | inl below ↦
        overlay-outside base (b * ptn_entry_size) from ptn_entry_size (k * ptn_entry_size + i)
          (inl (omega (arith, ltb→lt k b below)))
    | inr above ↦
        overlay-outside base (b * ptn_entry_size) from ptn_entry_size (k * ptn_entry_size + i)
          (inr (after k b i differs above))
  ])
]

swap_entries-moves :
    (h : Buf) (a b k i : ℕ)
    → i < ptn_entry_size
    → swap_entries h (a * ptn_entry_size) (b * ptn_entry_size) (k * ptn_entry_size + i)
      ≡ h (exchange a b k * ptn_entry_size + i)
unfolding swap_entries exchange
swap_entries-moves h a b k i lt =
    let first = copied h (shift h (b * ptn_entry_size)) a k i lt in
    let second =
      copied (overlay h (a * ptn_entry_size) (shift h (b * ptn_entry_size)) ptn_entry_size)
        (shift h (a * ptn_entry_size)) b k i lt in
    rw (second, first) (chosen h a b k i)

pub swap_entries-Rearranges :
    (n : ℕ) (h : Buf) (a b : ℕ)
    → a < n
    → b < n
    → Rearranges n h (swap_entries h (a * ptn_entry_size) (b * ptn_entry_size))
unfolding exchange
swap_entries-Rearranges n h a b la lb = record {
  from_ = exchange a b;
  to_ = exchange a b;
  to-from = exchange-exchange a b;
  from-to = exchange-exchange a b;
  within = λ k lt. ground arith;
  moved = λ k i lt below. swap_entries-moves h a b k i below;
}
