-- ===== src/Broker.antt =====
-- server/tunnel.py: `ServerTunnelBroker` and `BrokerTunnelStream`. The connection objects stand on a
-- heap under their identifiers, since the handler of a stream and the broker's dictionary share
-- them; a connection keeps the stream objects it created, also those that it no longer lists.
-- Each operation below runs without a suspension between its writes to the state.
pub mod Platform
pub mod State
pub mod Sessions
pub mod Frames
pub mod Tunnels
pub mod Consistency
pub mod Objects
pub mod History
pub mod Runs
