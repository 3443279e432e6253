-- ===== src/Tests.antt =====
-- The properties at concrete inputs, and runs of the model.
mod Samples
mod Ports
mod Session
mod Port
mod Stream
mod Codecs
mod Provider
mod Hidl
mod GptSamples
mod GptUpdates
