-- ===== src/Xdmcp.antt =====
-- daemon/scdm-xdmcp-display-factory.c: the XDMCP server. The children are, from the bottom up: the
-- state and the packets, what each packet declares, the tables of forwarded and indirect queries
-- and of pending MANAGED_FORWARD packets, the displays, and the handlers.
pub mod Types
pub mod Send
pub mod Forward
pub mod Indirect
pub mod Managed
pub mod Sessions
pub mod Displays
pub mod Queries
pub mod ForwardQueries
pub mod Requests
pub mod Manage
pub mod Decode
pub mod Events
pub mod Invariant
