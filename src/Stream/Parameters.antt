-- ===== src/Stream/Parameters.antt =====
-- `ParseAudioParams` of bluetooth/audio/hw/utils.cc, and `out_set_parameters` of stream_apis.cc.
-- `android::base::Split` is not part of the repository: it is the parameter `split`.
use text.Mathlib.Text.{◌==◌ as str_eq}
use Prim.Native.String.{String}
use device_blackshark_penros.Base.{
  Bool, List, Option, [], false, if◌then◌else◌, is_some, none, some, true, ◌&&◌, ◌||◌, ◌∷◌,
}
use device_blackshark_penros.Port.Types.{AudioConfig, disabled, standby, started}
use device_blackshark_penros.Stream.Interface.{AudioPort}
use device_blackshark_penros.Stream.Types.{Result, StreamOut, ok}

-- A `std::unordered_map<std::string, std::string>`.
abbrev pub Params : Type 0
Params = List (String × String)

unfoldable pub find_param : String → Params → Option String
find_param key [] = none
find_param key ((k, v) ∷ params) = if str_eq k key then some v else find_param key params

-- `params_map[key] = value`
unfoldable pub set_param : String → String → Params → Params
set_param key value [] = (key, value) ∷ []
set_param key value ((k, v) ∷ params) =
    if str_eq k key then (k, value) ∷ params else (k, v) ∷ set_param key value params

-- The key and the value of a segment: what stands before and after its first `=`, up to a second one.
unfoldable pub segment_param : List String → Option (String × String)
segment_param [] = none
segment_param (key ∷ []) = if str_eq key "" then none else some (key, "")
segment_param (key ∷ value ∷ rest) = if str_eq key "" then none else some (key, value)

-- The loop over the segments: an empty segment and an empty key are skipped.
unfoldable pub parse_segments : (String → String → List String) → List String → Params → Params
unfolding segment_param set_param
parse_segments split [] params = params
parse_segments split (segment ∷ segments) params = parse_segments split segments (
    if str_eq segment "" then params else elim (segment_param (split segment "=")) [
      | none ↦ params
      | some (key, value) ↦ set_param key value params
    ])

unfoldable pub parse_audio_params : (String → String → List String) → String → Params
unfolding parse_segments
parse_audio_params split kvpairs = parse_segments split (split kvpairs ";") []

-- The keys that system/audio.h names for the supported configurations.
pub record SupKeys : Type 0 where
  pub sampling_rates : String
  pub channels : String
  pub formats : String

abbrev pub has_param : String → Params → Bool
has_param key params = is_some (find_param key params)

-- `params[key] == value`, for a key that is there.
abbrev pub param_is : String → String → Params → Bool
param_is key value params = elim (find_param key params) [ none ↦ false | some v ↦ str_eq v value ]

abbrev pub is_empty : Params → Bool
is_empty [] = true
is_empty (p ∷ ps) = false

module _ {P : Type 0} (port : AudioPort P) where
  -- A supported-configuration key reloads the configuration from the port.
  unfoldable pub reload_config : StreamOut P → StreamOut P
  reload_config out =
      let config : AudioConfig = record {
        sample_rate = out.sample_rate;
        channel_mask = out.channel_mask;
        format = out.format;
      } in
      let (loaded, c) = port.load_audio_config out.bluetooth_output config in
      if loaded
      then record out {
        sample_rate = c.sample_rate;
        channel_mask = c.channel_mask;
        format = c.format;
      }
      else out

  unfoldable pub sup_step : SupKeys → Params → StreamOut P → StreamOut P
  unfolding reload_config
  sup_step keys params out =
      if has_param keys.sampling_rates params
        || (has_param keys.channels params || has_param keys.formats params)
      then reload_config out
      else out

  -- A2dpSuspended=true
  unfoldable pub a2dp_suspend : StreamOut P → StreamOut P
  a2dp_suspend out =
      let out' = record out { frames_rendered = 0 } in
      let p = out.bluetooth_output in
      elim (port.get_state p) [
        | started ↦ record out' { bluetooth_output = port.set_state (port.suspend p).1 disabled }
        | disabled ↦ out'
        | _ ↦ record out' { bluetooth_output = port.stop p }
      ]

  -- A2dpSuspended with any other value
  unfoldable pub a2dp_unsuspend : StreamOut P → StreamOut P
  a2dp_unsuspend out = elim (port.get_state out.bluetooth_output) [
    | disabled ↦ record out { bluetooth_output = port.set_state out.bluetooth_output standby }
    | _ ↦ out
  ]

  unfoldable pub a2dp_suspended_step : Params → StreamOut P → StreamOut P
  unfolding a2dp_suspend a2dp_unsuspend
  a2dp_suspended_step params out =
      if has_param "A2dpSuspended" params && port.is_a2dp out.bluetooth_output
      then (if param_is "A2dpSuspended" "true" params then a2dp_suspend out else a2dp_unsuspend out)
      else out

  -- closing=true and exiting=1
  unfoldable pub close_stream : StreamOut P → StreamOut P
  close_stream out = elim (port.get_state out.bluetooth_output) [
    | disabled ↦ out
    | _ ↦ record out {
      bluetooth_output = port.stop out.bluetooth_output;
      frames_rendered = 0;
      frames_presented = 0;
    }
  ]

  unfoldable pub close_step : String → String → Params → StreamOut P → StreamOut P
  unfolding close_stream
  close_step key value params out = if param_is key value params then close_stream out else out

  -- The steps in the order of the source, on what the string parses to. The result is always 0.
  unfoldable pub out_apply_parameters : SupKeys → Params → StreamOut P → StreamOut P
  unfolding sup_step a2dp_suspended_step close_step
  out_apply_parameters keys params out =
      let out₁ = sup_step keys params out in
      let out₂ = a2dp_suspended_step params out₁ in
      let out₃ = close_step "closing" "true" params out₂ in close_step "exiting" "1" params out₃

  unfoldable pub out_set_parameters :
      (String → String → List String) → SupKeys → StreamOut P → String → Result × StreamOut P
  unfolding parse_audio_params out_apply_parameters
  out_set_parameters split keys out kvpairs =
      let params = parse_audio_params split kvpairs in
      if is_empty params then (ok 0, out) else (ok 0, out_apply_parameters keys params out)
