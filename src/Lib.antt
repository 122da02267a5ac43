-- ===== src/Lib.antt =====
-- A simulator of phasor measurement units that speaks IEEE 37.118 to its clients: the frames of
-- both wire versions, the fault scenarios, the parts of the server that decide, and the management
-- surface over HTTP. Paths are from the root of the repository.
--
-- * src/wire_v2.rs and src/wire_v3.rs are Wire: `crc16_ccitt` and `checksum_matches` are Wire/Crc,
--   the envelope and the commands are Wire/V2 and Wire/V3 (`FrameView`, `encode_frame`,
--   `encode_command`, `parse_command`, `encode_error_response_into`). Bytes are numbers, and a
--   theorem that needs them below 256 says so. Wire/Image is the layout of a frame, written apart
--   from the code. Configurations and data frames, which hold f32 values, are not modelled.
-- * src/scenario.rs is Scenario: Scenario/Catalog is `compile_catalog` over the records that
--   serde_yaml fills, Scenario/Controller is `ScenarioController` and its methods. A method takes
--   the controller and gives it back, on an error too; a failed `expect` is an outcome of its own.
--   A BTreeMap is an association list in the order of its keys (Prelude/Dict). An f32 is its bit
--   pattern, an `Instant` its nanoseconds. Scenario/Controller/Calls is any sequence of the methods
--   that change the controller, Scenario/Controller/Snapshot what its clients read of it.
-- * src/management.rs is Management: Management/Errors is `ParseError` and `StatusCode`,
--   Management/Numbers the lengths, cursors and tokens in decimal, Management/Headers is
--   `inspect_headers`, Management/Route is `route_for`, Management/Parse is `parse`, and
--   Management/Response is `encode_response`, `json_response` and `BoundedJsonWriter`. The head of
--   a request is read by httparse and JSON by serde_json: both are parameters, a JSON value that is
--   written being the pieces that its serializer writes. Words have 64 bits.
-- * src/server.rs is Server: Server/Tokens is `connection_token`, `event_target` and their like
--   on a platform of 64 bits, Server/Clock is `Scheduler` and `WallClock`, Server/Connection is
--   `ReceiveBuffer`, `PendingFrame`, `Connection`, `handle_command`, `queue_error_response`,
--   `process_buffered_commands` and `flush_connection`, Server/Console is the pages of the console
--   state. The calls of mio, the sockets and the clocks are parameters: a socket is its states and
--   what a write does, which is asked to keep to the contract of `std::io::Write`. The loop over
--   commands runs on fuel, and one turn for each byte in the buffer and one more is enough, since a
--   command has at least 16 bytes. Accepting and closing connections, the emission of data, the
--   dispatch of events and the other management responses are not modelled.
-- * src/time_health.rs is TimeHealth.
-- * src/config.rs is Config (the profile and the checks on it), Config/Compile
--   (`compile_profile`) and Config/Ranges. The code takes up to 150 PMUs where one line of
--   docs/c37-118-simulator.md says 100 (Config/Tests compiles a fleet of 150). The operations of
--   `f32` and the constants they compare with are a parameter (`Floats`); an address is opaque; the
--   YAML that serde_yaml reads is not modelled.
-- * src/startup.rs and src/identity.rs are Startup (`load_startup`, with `parse_profile` of
--   src/config.rs and `parse_catalog` of src/scenario.rs) and Startup/Loaded. The files, serde_yaml
--   and the digest of sha2 are a parameter (`Libraries`).
--
-- The server reads commands with the parsers of Wire, and what it sends on an error is the error
-- response of Wire/V3. The frame plans of Scenario tell it what to omit, degrade or disconnect. The
-- management surface prepares and confirms scenarios, and the cursors that Server/Console prints are
-- read back by Management/Route. Arithmetic is that of the code: checked, saturating or modulo
-- 2 ^ 64 where the code is. The rest of the repository (the entry of the process, the probes and the
-- console in the browser) is input and output, third-party code or left out.
pub mod Prelude
pub mod Wire
pub mod Scenario
pub mod Server
pub mod TimeHealth
pub mod Management
pub mod Config
pub mod Startup
