-- ===== src/Stream/Types.antt =====
-- The state of a stream of stream_apis.h, and what its functions return.
use device_blackshark_penros.Base.{
  Bool, Option, false, if◌then◌else◌, none, some, true, ℕ, ◌%◌, ◌/◌, ◌==◌, ◌^◌,
}
use device_blackshark_penros.Port.Types.{AudioFormat, ChannelMask}

-- The negative results: `-EIO` and so on, and the plain `-1`.
pub data Errno : Type 0 where
  eio ebusy einval enosys minus_one : Errno

-- An `int` or `ssize_t` result.
pub data Result : Type 0 where
  ok : ℕ → Result
  fail : Errno → Result

abbrev pub succeeds : Result → Bool
succeeds (ok n) = true
succeeds (fail e) = false

abbrev pub u32 : ℕ → ℕ
u32 n = n % 2 ^ 32

abbrev pub u64 : ℕ → ℕ
u64 n = n % 2 ^ 64

-- An unsigned division; `none` is the fault of a division by zero.
abbrev pub div? : ℕ → ℕ → Option ℕ
div? a b = if b == 0 then none else some (a / b)

abbrev pub output_buffer_ms : ℕ
output_buffer_ms = 10

abbrev pub spatializer_output_buffer_ms : ℕ
spatializer_output_buffer_ms = 10

abbrev pub input_buffer_ms : ℕ
input_buffer_ms = 20

abbrev pub input_state_timeout_ms : ℕ
input_state_timeout_ms = 20

-- `BluetoothStreamOut`, over the type of its port. Times are microseconds of the monotonic clock.
pub record StreamOut (P : Type 0) : Type 0 where
  pub bluetooth_output : P
  pub is_aidl : Bool
  pub last_write_time_us : ℕ
  pub sample_rate : ℕ
  pub channel_mask : ChannelMask
  pub format : AudioFormat
  pub preferred_data_interval_us : ℕ
  pub frames_count : ℕ
  pub frames_rendered : ℕ
  pub frames_presented : ℕ

-- `BluetoothStreamIn`.
pub record StreamIn (P : Type 0) : Type 0 where
  pub bluetooth_input : P
  pub is_aidl : Bool
  pub last_read_time_us : ℕ
  pub sample_rate : ℕ
  pub channel_mask : ChannelMask
  pub format : AudioFormat
  pub preferred_data_interval_us : ℕ
  pub frames_count : ℕ
  pub frames_presented : ℕ
