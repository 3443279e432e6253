-- ===== src/Tests/Codecs.antt =====
-- The properties of the codecs at concrete inputs.
use device_blackshark_penros.Base.{true, ◌↔◌, ◌≡◌}
use device_blackshark_penros.Codecs.Advertised.{Covers, is_offload_codec_configuration_valid-Covers}
use device_blackshark_penros.Codecs.Checks.{is_offload_codec_configuration_valid}
use device_blackshark_penros.Session.Types.{a2dp_hardware_offload_encoding_datapath}
use device_blackshark_penros.Tests.Samples.{sample_codec}

is_offload_codec_configuration_valid-Covers_example :
    (is_offload_codec_configuration_valid a2dp_hardware_offload_encoding_datapath sample_codec
      ≡ true)
    ↔ Covers a2dp_hardware_offload_encoding_datapath sample_codec
is_offload_codec_configuration_valid-Covers_example =
    is_offload_codec_configuration_valid-Covers a2dp_hardware_offload_encoding_datapath sample_codec
