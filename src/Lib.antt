-- ===== src/Lib.antt =====
-- A model of two programs of device/blackshark/penrose: the Bluetooth audio path, from the audio
-- framework's stream down to the Bluetooth stack's session, and the partition tables of gpt-utils.
--
-- The parts, from the stack up:
--
--   Session   bluetooth/audio/utils/aidl_session/BluetoothAudioSession.{h,cpp}. One session per
--             session type: the stack's interface, the message queue, the audio configuration, the
--             latency modes and the registered observers. Session/Types has the data of the
--             interface, Session/Cookies the cookies of observers, Session/Core the operations,
--             Session/Calls those that call the stack, Session/Pcm the loops over the queue
--             (OutWritePcmData, InReadPcmData).
--   Control   bluetooth/audio/utils/aidl_session/BluetoothAudioSessionControl.h, and the
--             BluetoothAudioSessionInstance of BluetoothAudioSession.cpp: the registry of sessions
--             by type (Control/Sessions) and the operations that the clients call (Control).
--   Port      bluetooth/audio/hw/device_port_proxy.{h,cc}. The proxy of one stream: its state
--             machine, its registration with the session of its device, the callbacks it handles,
--             its configuration and its data (Port/Types, Port/Core, Port/Data).
--   Stream    bluetooth/audio/hw/stream_apis.{h,cc} and ParseAudioParams of
--             bluetooth/audio/hw/utils.cc. Output and input streams of the audio HAL over any port:
--             Stream/Interface is the interface of a port and the laws that a stream relies on,
--             Stream/Out, Stream/In, Stream/Parameters, Stream/Delay and Stream/Device the
--             operations. Stream/Aidl fills the interface with the port of Port.
--   Codecs    bluetooth/audio/utils/aidl_session/BluetoothAudioCodecs.cpp. The tables of
--             capabilities (Codecs/Tables), the checks of a configuration (Codecs/Checks), the
--             lists that are advertised (Codecs/Capabilities, Codecs/LeAudio), and when a
--             capability admits a configuration (Codecs/Admission).
--   Report    bluetooth/audio/utils/aidl_session/BluetoothAudioSessionReport.h. What a provider
--             tells the session of its type.
--   Provider  bluetooth/audio/hal. The providers that the Bluetooth stack opens: Provider/Core has
--             the starts of BluetoothAudioProvider.cpp and of its five classes, Provider/Calls the
--             other operations, Provider/Factory the constructors and
--             BluetoothAudioProviderFactory.cpp.
--   Hidl      bluetooth/audio/utils/aidl_session/HidlToAidlMiddleware.cpp. A client of the HIDL interface
--             served by a session of the AIDL one: the types that it names (Hidl/Types), the
--             conversions (Hidl/Convert, Hidl/LeAudio), and the legacy table of callbacks with the
--             operations over Control (Hidl/Middleware).
--   Gpt       gpt-utils/gpt-utils.cpp. Partition tables and the safe update of boot partitions, apart
--             from the audio path. Gpt/Bytes has the byte macros, Gpt/Device what is asked of the
--             system, Gpt/Header gpt_get_state and gpt_set_state, Gpt/Table the search, the swap and
--             gpt2_set_boot_chain, Gpt/Files the paths and the boot LUN, Gpt/Update prepare_partitions
--             and prepare_boot_update, Gpt/Disk the gpt_disk functions; the others are proofs.
--   Tests     the properties at concrete inputs.
--
-- The correspondence. A C++ method is a function of the same name in snake case, from the object's
-- state, and the registry where it reaches a session, to its result and the states it leaves. The
-- mutexes make a method one step. Where a method waits or gives up a lock, what happens meanwhile
-- is an argument: a Reply of the environment is the answer of the stack's call and the batches of
-- callbacks that arrive, one batch per waking of the condition variable (Port/Core), and `others`
-- is what other calls make of a stream while its lock is given up (Stream/Out, Stream/In). A report
-- of a session returns the callbacks that it invokes, in the order of the map of observers, and the
-- calls of the stack that it makes, as lists. The stack's interface, the message queues and the
-- size of a frame (audio_stream_out_frame_size) are parameters; so are the numeric codes of the
-- session types. The configurations of LE audio are numbers; Hidl, which reads them, looks them up.
--
-- A function of gpt-utils that can fail runs on the state of the block device: `done` is its return,
-- `failed` its error exit, and `endless` a loop that does not end. A System answers, at each turn of
-- the transfers, whether a call fails and how many bytes it moves; a stop of the machine is a system
-- whose calls fail from some turn on. Memory and the device are functions from an offset to a byte,
-- so that a read past a buffer is of what the memory holds. zlib's crc32, of the bytes it is given,
-- set_boot_lun and the file system are parameters.
--
-- Bounds and fuel. Cookies are 16 bits wide and the frame counters 64; a narrowing is written out
-- as a remainder. Each PCM loop runs on fuel: a round transfers at least one byte or uses up a
-- millisecond of 1000, so that as many rounds as there are bytes, and 1001 more, are enough. The
-- wait of an input stream runs at most 20 times. A division by zero is `none`, and a PCM transfer that
-- dereferences a queue that its session does not have is `faulted`. Times do not wrap.
-- The search of a partition runs as many rounds as the array has bytes, and one more: enough where an
-- entry is not empty, since a round passes one. Offsets of tables are 64 bits wide and array sizes 32.
--
-- Not modelled: the HIDL session and port; the links to the death of the stack's
-- process in the providers; the textual
-- results of get_parameters, log output and operations that only log; audio/hal, which wraps a HAL
-- that is not part of the repository; the ioctl calls of recovery-ufs-bsg.cpp, the allocation of a
-- gpt_disk, libinit and power, which are device I/O or other languages.
pub mod Base
pub mod Session
pub mod Codecs
pub mod Control
pub mod Report
pub mod Port
pub mod Stream
pub mod Provider
pub mod Hidl
pub mod Gpt
pub mod Tests
