-- ===== src/Gpt/Device.antt =====
-- What gpt-utils.cpp asks of the system: transfers of a block device, memory, files and properties.
-- Each function that can fail runs on the state of the device.
use device_blackshark_penros.Base.{
  Bool, List, Option, false, if◌then◌else◌, leb, none, some, true, ℕ, ◌%◌, ◌&&◌, ◌+◌, ◌-◌, ◌^◌,
}
use device_blackshark_penros.Gpt.Bytes.{Buf, overlay, shift, u64_mod}

-- What one call of `lseek64` with `read`, or with `write` and `fsync`, does: `moves n` transfers at
-- most n bytes and succeeds, `unsynced n` writes at most n bytes that `fsync` then fails on.
pub data Transfer : Type 0 where
  seek_fails : Transfer
  rw_fails : Transfer
  moves : ℕ → Transfer
  unsynced : ℕ → Transfer

abbrev pub FilePath : Type 0
FilePath = List ℕ

-- The answers of the system, at each turn of the transfers.
pub record System : Type 0 where
  pub block_size : ℕ → Option ℕ
  pub allocates : ℕ → Bool
  pub fresh : ℕ → Buf
  pub transfer : ℕ → Transfer
  pub seeks_end : ℕ → Bool

-- What the system answers on files and properties.
pub record Files : Type 0 where
  pub boot_device : List ℕ
  pub exists : FilePath → Bool
  pub link : FilePath → Option FilePath
  pub entries : FilePath → Option (List FilePath)
  pub opens : FilePath → Bool
  pub takes_boot_lun : FilePath → ℕ → Bool

-- The block device, and the boot LUN that the storage was told last.
pub record Device : Type 0 where
  pub size : ℕ
  pub byte : Buf
  pub turn : ℕ
  pub boot_lun : ℕ

-- `done` is the return of a value, `failed` the jump to the error exit, and `endless` a loop that
-- does not end.
pub data Outcome {ℓ} (A : Type ℓ) : Type ℓ where
  done : A → Outcome A
  failed : Outcome A
  endless : Outcome A

abbrev pub is_done {ℓ} : {A : Type ℓ} → Outcome A → Bool
is_done (done a) = true
is_done failed = false
is_done endless = false

abbrev pub Io {ℓ} : Type ℓ → Type ℓ
Io A = Device → Outcome A × Device

abbrev pub and_then {ℓ κ} :
    {A : Type ℓ} {B : Type κ} → Outcome A × Device → (A → Io B) → Outcome B × Device
and_then (done a, d) f = f a d
and_then (failed, d) f = (failed, d)
and_then (endless, d) f = (endless, d)

infixl 5 ◌>>=◌ ◌>>◌
abbrev pub ◌>>=◌ {ℓ κ} : {A : Type ℓ} {B : Type κ} → Io A → (A → Io B) → Io B
◌>>=◌ m f d = and_then (m d) f

abbrev pub ◌>>◌ {ℓ κ} : {A : Type ℓ} {B : Type κ} → Io A → Io B → Io B
m >> k = m >>= λ _. k

abbrev pub pure {ℓ} : {A : Type ℓ} → A → Io A
pure a d = (done a, d)

abbrev pub abort {ℓ} : {A : Type ℓ} → Io A
abort d = (failed, d)

abbrev pub require : Bool → Io (Unit {0})
require true d = (done tt, d)
require false d = (failed, d)

-- A C function that answers a pointer or NULL.
abbrev pub found {ℓ} : {A : Type ℓ} → Option A → Io A
found (some a) d = (done a, d)
found none d = (failed, d)

abbrev pub next_turn : Device → Device
next_turn d = record d { turn = d.turn + 1 }

abbrev pub is_negative : ℕ → Bool
is_negative offset = leb (2 ^ 63) (offset % u64_mod)

pub data Direction : Type 0 where
  reading : Direction
  writing : Direction

abbrev pub least : ℕ → ℕ → ℕ
least a b = if leb a b then a else b

-- What a transfer does with `len` bytes at an offset of the device: the buffer and the device after.
unfoldable pub transferred : Transfer → Direction → ℕ → Buf → ℕ → Device → Outcome Buf × Device
unfolding overlay
transferred seek_fails rw offset buf len d = (failed, d)
transferred rw_fails rw offset buf len d = (failed, d)
transferred (moves n) reading offset buf len d =
    (done (overlay buf 0 (shift d.byte offset) (least n len)), d)
transferred (moves n) writing offset buf len d =
    (done buf, record d { byte = overlay d.byte offset buf (least n len) })
transferred (unsynced n) reading offset buf len d = (failed, d)
transferred (unsynced n) writing offset buf len d =
    (failed, record d { byte = overlay d.byte offset buf (least n len) })

module _ (sys : System) where
  -- A negative offset makes `lseek64` fail.
  unfoldable pub blk_rw : Direction → ℕ → Buf → ℕ → Io Buf
  unfolding transferred
  blk_rw rw offset buf len d =
      if is_negative offset
      then (failed, next_turn d)
      else transferred (sys.transfer d.turn) rw offset buf len (next_turn d)

  -- BLKSSZGET.
  unfoldable pub get_block_size : Io ℕ
  get_block_size d = found (sys.block_size d.turn) d

  unfoldable pub malloc : Io Buf
  malloc d = if sys.allocates d.turn then (done (sys.fresh d.turn), d) else (failed, d)

  unfoldable pub calloc : Io Buf
  calloc d = if sys.allocates d.turn then (done (λ i. 0), d) else (failed, d)

  -- `lseek64(fd, 0, SEEK_END) - blk_size`, where it is not negative.
  unfoldable pub end_offset : ℕ → Io ℕ
  end_offset blk_size d =
      if sys.seeks_end d.turn && leb blk_size d.size
      then (done (d.size - blk_size), d)
      else (failed, d)

-- A chain of answers that may be missing.
abbrev pub option_then {ℓ κ} : {A : Type ℓ} {B : Type κ} → Option A → (A → Option B) → Option B
option_then none f = none
option_then (some a) f = f a
