-- ===== src/Session/Pcm.antt =====
-- OutWritePcmData and InReadPcmData of BluetoothAudioSession.cpp. The lock is taken anew in each round,
-- so what a round sees is an argument: the session, how much its queue can take or give, and whether
-- the queue's call succeeds.
use device_blackshark_penros.Base.{
  Bool, List, [], drop, if◌then◌else◌, is_some, leb, length, ltb, suc, take, zero, ℕ, ◌++◌, ◌+◌,
  ◌-◌, ◌||◌,
}
use device_blackshark_penros.Session.Core.{Session, is_session_ready}

pub record Round : Type 0 where
  pub seen : Session
  pub available : ℕ
  pub transfers : Bool

-- `kFmqSendTimeoutMs` and `kFmqReceiveTimeoutMs`; the poll interval is 1 ms.
abbrev pub fmq_timeout_ms : ℕ
fmq_timeout_ms = 1000

abbrev pub poll_ms : ℕ
poll_ms = 1

abbrev pub at_most : ℕ → ℕ → ℕ
at_most limit n = if ltb limit n then limit else n

-- How a call ends: with the number of bytes and their content in order, or in the dereference of a
-- queue that the session does not have. The loops run on fuel, which may run out.
pub data PcmResult {ℓ} (A : Type ℓ) : Type ℓ where
  returned : ℕ → List A → PcmResult A
  faulted : PcmResult A
  out_of_fuel : PcmResult A

-- What a round does at its start: the loop ends where the session is not ready, and else its queue
-- is dereferenced.
unfoldable pub with_queue {ℓ} : {A : Type ℓ} → Session → PcmResult A → PcmResult A → PcmResult A
unfolding is_session_ready
with_queue s left_off round =
    if is_session_ready s then (if is_some s.data_mq then round else faulted) else left_off

-- The `do … while` of OutWritePcmData, with the content that the queue is given.
module _ {ℓ} {A : Type ℓ} (rounds : ℕ → Round) (buffer : List A) (bytes : ℕ) where
  unfoldable pub out_write_loop : ℕ → ℕ → ℕ → ℕ → List A → PcmResult A
  unfolding with_queue
  out_write_loop zero i total timeout_ms queue = out_of_fuel
  out_write_loop (suc fuel) i total timeout_ms queue =
      let n = at_most (bytes - total) (rounds i).available in
      let queue' = queue ++ take n (drop total buffer) in
      let written = out_write_loop fuel (i + 1) (total + n) timeout_ms queue' in
      let waited = out_write_loop fuel (i + 1) total (timeout_ms - poll_ms) queue in
      with_queue (rounds i).seen (returned total queue) (
        if ltb 0 (rounds i).available
        then (if (rounds i).transfers
            then (if ltb (total + n) bytes then written else returned (total + n) queue')
            else returned total queue)
        else (if leb poll_ms timeout_ms
            then (if ltb total bytes then waited else returned total queue)
            else returned total queue))

  -- The entry checks, and the loop from its initial values.
  unfoldable pub out_write_pcm_data : Bool → PcmResult A
  unfolding out_write_loop
  out_write_pcm_data buffer_is_null =
      if buffer_is_null || leb bytes 0
      then returned 0 []
      else out_write_loop (bytes + fmq_timeout_ms + 1) 0 0 fmq_timeout_ms []

-- A round of InReadPcmData: what the queue holds at that time.
pub record ReadRound {ℓ} (A : Type ℓ) : Type ℓ where
  pub seen : Session
  pub content : List A
  pub transfers : Bool

-- The `do … while` of InReadPcmData on fuel: the bytes read, and what stands in the caller's buffer.
module _ {ℓ} {A : Type ℓ} (rounds : ℕ → ReadRound A) (bytes : ℕ) where
  unfoldable pub in_read_loop : ℕ → ℕ → ℕ → ℕ → List A → PcmResult A
  unfolding with_queue
  in_read_loop zero i total timeout_ms out = out_of_fuel
  in_read_loop (suc fuel) i total timeout_ms out =
      let n = at_most (bytes - total) (length (rounds i).content) in
      let out' = out ++ take n (rounds i).content in
      let got = in_read_loop fuel (i + 1) (total + n) timeout_ms out' in
      let waited = in_read_loop fuel (i + 1) total (timeout_ms - poll_ms) out in
      with_queue (rounds i).seen (returned total out) (
        if ltb 0 (length (rounds i).content)
        then (if (rounds i).transfers
            then (if ltb (total + n) bytes then got else returned (total + n) out')
            else returned total out)
        else (if leb poll_ms timeout_ms
            then (if ltb total bytes then waited else returned total out)
            else returned total out))

  unfoldable pub in_read_pcm_data : Bool → PcmResult A
  unfolding in_read_loop
  in_read_pcm_data buffer_is_null =
      if buffer_is_null || leb bytes 0
      then returned 0 []
      else in_read_loop (bytes + fmq_timeout_ms + 1) 0 0 fmq_timeout_ms []
