-- ===== src/Imap.antt =====
-- The agent's side of the IMAP proxy: the command line parser (gateway/imap_parser.py), the
-- classifier (gateway/command_router.py) and the reading loop of gateway/proxy.py.
pub mod Line
pub mod Router
pub mod Proxy
pub mod Write
pub mod Append
pub mod Examples
