-- ===== src/Gpt/Bytes.antt =====
-- The byte macros and buffers of gpt-utils.cpp.
use Prim.Native.Char.{code}
use Prim.Native.String.{String}
use mathlib.Core.Path.{fun_ext}
use device_blackshark_penros.Base.{
  List, Option, [], ap, arith, if◌then◌else◌, inl, inr, leb, ltb, none, refl, some, suc, zero, ℕ,
  ◌%◌, ◌&&◌, ◌*◌, ◌+◌, ◌-◌, ◌/◌, ◌<◌, ◌==◌, ◌^◌, ◌∷◌, ◌≡◌, ◌≤◌, ◌⊎◌,
}

-- Memory from a pointer on, and the content of a device: a byte at each offset.
abbrev pub Buf : Type 0
Buf = ℕ → ℕ

-- The bytes of a text.
abbrev pub codes : String → List ℕ
codes String.[] = []
codes (String.◌∷◌ c s) = code c ∷ codes s

abbrev pub map_some {ℓ κ} : {A : Type ℓ} {B : Type κ} → (A → B) → Option A → Option B
map_some f none = none
map_some f (some a) = some (f a)

abbrev pub u32_mod : ℕ
u32_mod = 2 ^ 32

abbrev pub u64_mod : ℕ
u64_mod = 2 ^ 64

-- `memcpy` of `n` bytes to an offset, from the start of another buffer.
unfoldable pub overlay : Buf → ℕ → Buf → ℕ → Buf
overlay base at from n i = if leb at i && ltb i (at + n) then from (i - at) else base i

-- `base + at`.
abbrev pub shift : Buf → ℕ → Buf
shift h at i = h (at + i)

-- GET_4_BYTES and GET_8_BYTES: the bytes do not overlap, so that the source's `|` adds.
unfoldable pub get_4_bytes : Buf → ℕ → ℕ
get_4_bytes h at = h at + 256 * h (at + 1) + 65536 * h (at + 2) + 16777216 * h (at + 3)

unfoldable pub get_8_bytes : Buf → ℕ → ℕ
unfolding get_4_bytes
get_8_bytes h at = get_4_bytes h at + 4294967296 * get_4_bytes h (at + 4)

-- PUT_4_BYTES.
unfoldable pub put_4_bytes : Buf → ℕ → ℕ → Buf
put_4_bytes h at y i =
    if i == at
    then y % 256
    else if i == at + 1
    then y / 256 % 256
    else if i == at + 2
    then y / 65536 % 256
    else if i == at + 3
    then y / 16777216 % 256
    else h i

-- The bytes that a checksum is taken of.
unfoldable pub bytes_from : Buf → ℕ → ℕ → List ℕ
bytes_from h at zero = []
bytes_from h at (suc n) = h at ∷ bytes_from h (at + 1) n

pub bytes_from-cong :
    (f g : Buf) (at n : ℕ)
    → ((i : ℕ) → at ≤ i → i < at + n → f i ≡ g i)
    → bytes_from f at n ≡ bytes_from g at n
unfolding bytes_from
bytes_from-cong f g at zero h = refl
bytes_from-cong f g at (suc n) h =
    rw
      (
        h at (omega arith) (omega arith),
        bytes_from-cong f g (at + 1) n (λ i l u. h i (omega arith) (omega arith)),
      )
      refl

-- What is put is what is got.
pub get_4_bytes-put : (h : Buf) (at y : ℕ) → y < u32_mod → get_4_bytes (put_4_bytes h at y) at ≡ y
unfolding get_4_bytes put_4_bytes
get_4_bytes-put h at y lt = ground arith

pub put_4_bytes-outside :
    (h : Buf) (at y i : ℕ) → (i < at) ⊎ (at + 4 ≤ i) → put_4_bytes h at y i ≡ h i
unfolding put_4_bytes
put_4_bytes-outside h at y i (inl b) = ground arith
put_4_bytes-outside h at y i (inr a) = ground arith

-- A field that is put again keeps nothing of what was put before.
pub put-put : (h : Buf) (at y z : ℕ) → put_4_bytes (put_4_bytes h at y) at z ≡ put_4_bytes h at z
unfolding put_4_bytes
put-put h at y z = fun_ext λ i. ground arith

pub get_4_bytes-cong :
    (f g : Buf) (at n : ℕ)
    → at + 4 ≤ n
    → ((i : ℕ) → i < n → f i ≡ g i)
    → get_4_bytes f at ≡ get_4_bytes g at
unfolding get_4_bytes
get_4_bytes-cong f g at n le h = omega (
  arith,
  h at (omega arith),
  h (at + 1) (omega arith),
  h (at + 2) (omega arith),
  h (at + 3) (omega arith),
)

pub get_8_bytes-cong :
    (f g : Buf) (at n : ℕ)
    → at + 8 ≤ n
    → ((i : ℕ) → i < n → f i ≡ g i)
    → get_8_bytes f at ≡ get_8_bytes g at
unfolding get_8_bytes
get_8_bytes-cong f g at n le h = omega (
  arith,
  get_4_bytes-cong f g at n (omega arith) h,
  get_4_bytes-cong f g (at + 4) n (omega arith) h,
)

pub overlay-inside :
    (base : Buf) (at : ℕ) (from : Buf) (n i : ℕ) → i < n → overlay base at from n (at + i) ≡ from i
unfolding overlay
overlay-inside base at from n i lt =
    let same : at + i - at ≡ i = omega arith in ground (arith, ap from same)

pub overlay-outside :
    (base : Buf) (at : ℕ) (from : Buf) (n i : ℕ)
    → (i < at) ⊎ (at + n ≤ i)
    → overlay base at from n i ≡ base i
unfolding overlay
overlay-outside base at from n i (inl b) = ground arith
overlay-outside base at from n i (inr a) = ground arith

pub overlay-start : (base from : Buf) (n i : ℕ) → i < n → overlay base 0 from n i ≡ from i
unfolding overlay
overlay-start base from n i lt = let same : i - 0 ≡ i = omega arith in ground (arith, ap from same)

-- Fields that are equal byte by byte.
pub get_4_bytes-field :
    (f g : Buf) (at : ℕ)
    → ((i : ℕ) → at ≤ i → i < at + 4 → f i ≡ g i)
    → get_4_bytes f at ≡ get_4_bytes g at
unfolding get_4_bytes
get_4_bytes-field f g at h = omega (
  arith,
  h at (omega arith) (omega arith),
  h (at + 1) (omega arith) (omega arith),
  h (at + 2) (omega arith) (omega arith),
  h (at + 3) (omega arith) (omega arith),
)

pub get_8_bytes-field :
    (f g : Buf) (at : ℕ)
    → ((i : ℕ) → at ≤ i → i < at + 8 → f i ≡ g i)
    → get_8_bytes f at ≡ get_8_bytes g at
unfolding get_8_bytes
get_8_bytes-field f g at h = omega (
  arith,
  get_4_bytes-field f g at (λ i l u. h i l (omega arith)),
  get_4_bytes-field f g (at + 4) (λ i l u. h i (omega arith) (omega arith)),
)
