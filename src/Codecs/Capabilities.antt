-- ===== src/Codecs/Capabilities.antt =====
-- The lists of capabilities of BluetoothAudioCodecs.cpp that the provider factory advertises.
use device_blackshark_penros.Base.{List, [], if◌then◌else◌, map, ◌∷◌}
use device_blackshark_penros.Codecs.Tables.{
  AacCapabilities, AptxCapabilities, LdacCapabilities, OpusCapabilities, PcmCapabilities,
  SbcCapabilities, default_offload_aac_capability, default_offload_aptx_capability,
  default_offload_aptx_hd_capability, default_offload_ldac_capability,
  default_offload_opus_capability, default_offload_sbc_capability,
  default_software_pcm_capabilities,
}
use device_blackshark_penros.Session.Codec.{CodecType, aac, aptx, aptx_hd, ldac, opus, sbc}
use device_blackshark_penros.Session.Core.{is_offload_a2dp_session}
use device_blackshark_penros.Session.Types.{SessionType}

-- A tagged union; `no_capabilities` is its default value.
pub data Capabilities : Type 0 where
  no_capabilities : Capabilities
  sbc_capabilities : SbcCapabilities → Capabilities
  aac_capabilities : AacCapabilities → Capabilities
  ldac_capabilities : LdacCapabilities → Capabilities
  aptx_capabilities : AptxCapabilities → Capabilities
  opus_capabilities : OpusCapabilities → Capabilities

pub record CodecCapabilities : Type 0 where
  pub codec_type : CodecType
  pub capabilities : Capabilities

abbrev with_type : CodecType → CodecCapabilities
with_type t = record { codec_type = t; capabilities = no_capabilities }

abbrev pub default_offload_a2dp_codec_capabilities : List CodecCapabilities
default_offload_a2dp_codec_capabilities =
    map with_type (sbc ∷ aac ∷ ldac ∷ aptx ∷ aptx_hd ∷ opus ∷ [])

-- The body of the loop over the list.
unfoldable pub fill_in : CodecCapabilities → CodecCapabilities
fill_in c = elim c.codec_type [
  | sbc ↦ record c { capabilities = sbc_capabilities default_offload_sbc_capability }
  | aac ↦ record c { capabilities = aac_capabilities default_offload_aac_capability }
  | ldac ↦ record c { capabilities = ldac_capabilities default_offload_ldac_capability }
  | aptx ↦ record c { capabilities = aptx_capabilities default_offload_aptx_capability }
  | aptx_hd ↦ record c { capabilities = aptx_capabilities default_offload_aptx_hd_capability }
  | opus ↦ record c { capabilities = opus_capabilities default_offload_opus_capability }
  | _ ↦ c
]

unfoldable pub get_a2dp_offload_codec_capabilities : SessionType → List CodecCapabilities
unfolding fill_in
get_a2dp_offload_codec_capabilities t =
    if is_offload_a2dp_session t then map fill_in default_offload_a2dp_codec_capabilities else []

unfoldable pub get_software_pcm_capabilities : List PcmCapabilities
get_software_pcm_capabilities = default_software_pcm_capabilities ∷ []
