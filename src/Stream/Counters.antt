-- ===== src/Stream/Counters.antt =====
-- The frame counters of an output stream of stream_apis.cc.
use native.Mathlib.Nat.{div-le_self}
use Prim.Native.String.{String}
use device_blackshark_penros.Base.{
  Bool-cases, List, Option, arith, if◌then◌else◌, inl, inr, ltb, none, some, ℕ, ◌+◌, ◌/◌, ◌<◌, ◌^◌,
  ◌≤◌,
}
use device_blackshark_penros.Port.Core.{is_started}
use device_blackshark_penros.Port.Types.{AudioFormat, ChannelMask}
use device_blackshark_penros.Stream.Delay.{out_frame_size}
use device_blackshark_penros.Stream.Interface.{AudioPort}
use device_blackshark_penros.Stream.Out.{
  add_frames, out_resume, out_standby, out_state, out_write, out_write_account, out_write_data,
  out_write_refused, out_write_stalled,
}
use device_blackshark_penros.Stream.Parameters.{
  Params, SupKeys, a2dp_suspended_step, close_step, is_empty, out_set_parameters,
  parse_audio_params, sup_step,
}
use device_blackshark_penros.Stream.Types.{Result, StreamOut, succeeds}

-- The frames rendered since the last standby are among those presented since the stream was opened.
abbrev pub IsCounted : {P : Type 0} → StreamOut P → Type 0
IsCounted out = out.frames_rendered ≤ out.frames_presented

module _ {P : Type 0} (port : AudioPort P) where
  pub out_standby-IsCounted :
      (out : StreamOut P) → IsCounted out → IsCounted (out_standby port out).1
  unfolding out_standby
  out_standby-IsCounted out h = ground arith

  pub out_resume-IsCounted : (out : StreamOut P) → IsCounted out → IsCounted (out_resume port out).1
  unfolding out_resume
  out_resume-IsCounted out h = ground arith

  sup_step-IsCounted :
      (keys : SupKeys) (params : Params) (out : StreamOut P)
      → IsCounted out
      → IsCounted (sup_step port keys params out)
  unfolding sup_step
  sup_step-IsCounted keys params out h = ground arith

  a2dp_suspended_step-IsCounted :
      (params : Params) (out : StreamOut P)
      → IsCounted out
      → IsCounted (a2dp_suspended_step port params out)
  unfolding a2dp_suspended_step
  a2dp_suspended_step-IsCounted params out h = ground arith

  close_step-IsCounted :
      (key value : String) (params : Params) (out : StreamOut P)
      → IsCounted out
      → IsCounted (close_step port key value params out)
  unfolding close_step
  close_step-IsCounted key value params out h = ground arith

  -- Where the rendered frames do not exceed the presented ones, no string of parameters makes them do
  -- so, however it is split.
  pub out_set_parameters-IsCounted :
      (split : String → String → List String) (keys : SupKeys) (out : StreamOut P)
      (kvpairs : String)
      → IsCounted out
      → IsCounted (out_set_parameters port split keys out kvpairs).1
  unfolding out_set_parameters
  out_set_parameters-IsCounted split keys out kvpairs h =
      let params = parse_audio_params split kvpairs in
      elim (Bool-cases (is_empty params)) [
        | inl e ↦ rw e h
        | inr e ↦ rw e (
            close_step-IsCounted "exiting" "1" params _ (
              close_step-IsCounted "closing" "true" params _
                (a2dp_suspended_step-IsCounted params _ (sup_step-IsCounted keys params out h))))
      ]

-- Counters that a write of so many frames does not wrap.
abbrev pub HasRoom : {P : Type 0} → ℕ → StreamOut P → Type 0
HasRoom bytes out = IsCounted out × (out.frames_presented + bytes < 2 ^ 64)

abbrev pub Counted : {P : Type 0} → Option (Result × StreamOut P) → Type 0
Counted none = Unit {0}
Counted (some (r, out)) = IsCounted out

abbrev CountedStream : {P : Type 0} → Option (StreamOut P) → Type 0
CountedStream none = Unit {0}
CountedStream (some out) = IsCounted out

add_frames_mono :
    (rendered presented bytes size : ℕ)
    → rendered ≤ presented
    → presented + bytes < 2 ^ 64
    → add_frames rendered (bytes / size) ≤ add_frames presented (bytes / size)
add_frames_mono rendered presented bytes size h room = omega (arith, div-le_self bytes size)

module _ {P : Type 0} (port : AudioPort P) (frame_size : ChannelMask → AudioFormat → ℕ)
    (others : ℕ → StreamOut P → StreamOut P) (bytes : ℕ)
    (kept : (i : ℕ) (out : StreamOut P) → HasRoom bytes out → HasRoom bytes (others i out)) where
  stalled-Counted :
      (i : ℕ) (out : StreamOut P) (now : ℕ)
      → HasRoom bytes out
      → CountedStream (out_write_stalled port frame_size (others i) out bytes now)
  unfolding out_write_stalled
  stalled-Counted i out now h = ground (arith, kept i out h)

  account-Counted :
      (out : StreamOut P) (total now : ℕ)
      → HasRoom bytes out
      → CountedStream (out_write_account port frame_size (others 3) out bytes total now)
  unfolding out_write_account
  account-Counted out total now h = elim (Bool-cases (ltb 0 total)) [
    | inl e ↦ rw e (
        ground (
          arith,
          add_frames_mono out.frames_rendered out.frames_presented bytes
              (out_frame_size port frame_size out),
        ))
    | inr e ↦ rw e (stalled-Counted 3 out now h)
  ]

  -- What a port writes leaves the counters to the stream.
  data-Counted :
      (out : StreamOut P) (buffer : List ℕ) (now_ns : ℕ)
      → HasRoom bytes out
      → Counted (out_write_data port frame_size others out buffer bytes now_ns)
  unfolding out_write_data
  data-Counted out buffer now_ns h =
      let (total, p) = port.write_data out.bluetooth_output buffer bytes in
      let out' = record out { bluetooth_output = p } in
      ground (arith, account-Counted (others 2 out') total (now_ns / 1000) (kept 2 out' h))

  refused-Counted :
      (out : StreamOut P)
      → HasRoom bytes out
      → Counted (out_write_refused port frame_size others out bytes)
  unfolding out_write_refused
  refused-Counted out h = ground (arith, kept 1 out h)

  resumed-HasRoom : (out : StreamOut P) → HasRoom bytes out → HasRoom bytes (out_resume port out).1
  unfolding out_resume
  resumed-HasRoom out h = ground arith

  -- A write keeps the rendered frames among the presented ones, on every path that does not fault:
  -- started, resumed, refused or stalled. The counters must not wrap, and what other calls do while
  -- the lock is given up must keep this too.
  pub out_write-IsCounted :
      (out : StreamOut P) (buffer : List ℕ) (now_ns : ℕ)
      → HasRoom bytes out
      → Counted (out_write port frame_size others out buffer bytes now_ns)
  unfolding out_write
  out_write-IsCounted out buffer now_ns h = elim (Bool-cases (is_started (out_state port out))) [
    | inl e ↦ rw e (data-Counted out buffer now_ns h)
    | inr e ↦
        let h₀ = resumed-HasRoom (others 0 out) (kept 0 out h) in
        rw e (elim (Bool-cases (succeeds (out_resume port (others 0 out)).0)) [
          | inl up ↦ rw up (data-Counted (out_resume port (others 0 out)).1 buffer now_ns h₀)
          | inr down ↦ rw down (refused-Counted (out_resume port (others 0 out)).1 h₀)
        ])
  ]

module _ {P : Type 0} (port : AudioPort P) (frame_size : ChannelMask → AudioFormat → ℕ)
    (others : ℕ → StreamOut P → StreamOut P) where
  -- The stream whose data a write hands to the port: the one that is started, or the one that was
  -- resumed.
  abbrev pub writing : StreamOut P → StreamOut P
  writing out = if is_started (out_state port out) then out else (out_resume port (others 0 out)).1

  -- The stream as it stands after WriteData, when the lock is taken again.
  abbrev pub handed_over : StreamOut P → List ℕ → ℕ → StreamOut P
  handed_over out buffer bytes =
      others 2
        (record out { bluetooth_output = (port.write_data out.bluetooth_output buffer bytes).1 })
