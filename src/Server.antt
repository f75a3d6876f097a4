-- ===== src/Server.antt =====
-- usr/lib/smd/lib/server.py: the daemon `Server`, its connections and its loop.
mod Defs
pub mod Life
pub mod Delivery
pub mod Office
pub mod Turns
pub mod Visits
pub mod Steps
pub mod Waiting
pub mod Sources
pub use Defs.{Net, Conn, Server, Poll, Turn, goes_on, breaks, raises, writes_of}
unfoldable pub use Defs.{
  writes, received, read, after_read, poll_client, poll_of, poll_self, drop_client, poll, send,
}
