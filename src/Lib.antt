-- ===== src/Lib.antt =====
-- vibeConnect, an SSH gateway: agents on nodes hold mTLS tunnels to a server, which multiplexes the
-- users' sessions over them as channels of a framed protocol.
--
-- The parts and their files (paths from the repository's root):
--   Identifiers   src/vibeconnect_common/identifiers.py: node names, labels, username principals.
--   Value         the values of the dynamic code and the interface of Python's json: `Json` has the
--                 two functions, `IsJson` states what the program relies on.
--   Frame         src/vibeconnect_common/tunnel.py and the frame types of models.py: encode_frame and
--                 decode_frame.
--   Stream        the readers _read_one_frame of src/server/tunnel.py and of src/agent/tunnel.py, over
--                 the bytes that a stream still brings.
--   Secret        SecretValue and verify_secret_hash of src/vibeconnect_common/crypto.py.
--   Rotation      the frame that rotates a tunnel secret.
--   Tunnel        src/server/tunnel.py: Registry (ActiveTunnelRegistry), Channels
--                 (TunnelChannelRegistry, apply_channel_frame), Heartbeat (HeartbeatState),
--                 Backpressure (TunnelBackpressure), Auth (the agent records, TunnelAuthenticator,
--                 AgentCertificateRenewer over InMemoryAgentTunnelStore).
--   Broker        ServerTunnelBroker. State has its dictionaries and the connection objects; Sessions
--                 has open_session, send_data, resize_pty and close_session; Frames has
--                 _handle_agent_frame and a round of handle_stream's loop; Tunnels has the start of
--                 handle_stream and _drop_connection; Runs has any sequence of these steps.
--   Text          the operations on str that the program uses, and HostKeys, src/server/host_keys.py.
--   Audit         Scrub has scrub_secret_metadata, Writer AuditWriter.write of
--                 src/vibeconnect_common/audit.py.
--   Replay        src/vibeconnect_common/replay.py: Storage (the files and what the file system answers),
--                 Recorder (ReplayRecorder, verify_replay_hmac), Writer (ReplayWriter), Pruning
--                 (prune_replays), and Log, the abstract view of a recording.
--   Jump          src/server/jump.py: World (the database's rows, the audit events, the replay files and
--                 the broker), Store (PostgresJumpStore), Opener (AsyncSshNodeTunnelOpener), Checks and
--                 Coordinator (ServerJumpCoordinator), Bridge (JumpPtyBridge and its lifecycle, whose
--                 channel is the broker's), Adapter (TunnelStreamAdapter).
--   Enrollment    src/server/enrollment.py: Store (InMemoryEnrollmentStore), Limiter
--                 (EnrollmentRateLimiter), Requests (what goes in and out of the service), Service
--                 (EnrollmentService) and Handler (enroll_handler).
--   Agent         src/agent/tunnel.py: Limits (validate_proxy_target, MissedHeartbeatTracker) and Loop
--                 (handle_agent_tunnel_stream on the frames that were read and decoded) and Streamed (the
--                 same function on the bytes of a stream, with the reader and decode_frame).
--   Config        src/vibeconnect_common/config.py: Models (the records of models.py), Files (the checks
--                 on files), Listen (the address of the metrics), Keys (the public keys of a file) and
--                 Validate (validate_server_config, validate_agent_config).
--   Access        src/server/auth.py: Ldap, Identity, Visible and Shell.
--   Base          Results with Python's exceptions, `Action` (a state with a result that may be a
--                 raise; what was changed before a raise stays changed), dictionaries and sets as
--                 lists, and what a computation preserves.
--   Tests         a small JSON codec that meets `IsJson`, and runs at concrete inputs.
--
-- The broker is shared by the tasks of one event loop. A step is what a task does between two
-- suspensions, and a run is any sequence of steps; close_session is two steps, before and after its
-- frame is drained. A connection object is stored under its connection_id, a fresh UUID in the
-- source, so a task that still holds an object after its agent reconnected works on that object.
-- The awaits of the agent store are not suspensions here: InMemoryAgentTunnelStore never waits.
-- An instant is a number of microseconds in UTC, a byte and a character are numbers, and a limit that
-- the source lets be negative is a natural, where 0 stands for every refused value; the configuration
-- keeps its integers.
--
-- Parameters: json, what request.json gives, SHA-256, on which texts encode returns, str.lower, the parsing of UUIDs, str of other values, the writer's drain,
-- the database's insert of an audit event, the import of an SSH key, which calls of the
-- file system return, what stat gives, ipaddress, str.isdigit and int, HMAC, the LDAP bind and the issuing of
-- certificates, and what AsyncSSH answers to an attempt to connect, during which other tasks may change
-- the broker in any way. Fresh random values and the time are arguments. Every loop is over a
-- list, but for the agent's loop on a byte stream, which takes a number of rounds: each round consumes
-- at least a byte, so more rounds than the stream has bytes are enough.
--
-- Not modelled: the database stores but that of the jumps, TLS set-up, the asyncio transport over a
-- channel, the agent's reconnecting, the SSH front end, the reading of the configuration files, the
-- health endpoints and the command lines.
pub mod Base
pub mod Identifiers
pub mod Value
pub mod Text
pub mod HostKeys
pub mod Config
pub mod Audit
pub mod Frame
pub mod Stream
pub mod Secret
pub mod Rotation
pub mod Tunnel
pub mod Replay
pub mod Broker
pub mod Jump
pub mod Enrollment
pub mod Access
pub mod Agent
pub mod Tests
