-- ===== src/Tcp.antt =====
-- libkngin/detail/net/tcp/impl: a TCP session on POSIX sockets, with its input and output streams.
pub mod World
pub mod Ostream
pub mod Istream
pub mod Session
mod ReadingTests
mod SessionTests
mod Tests
