-- ===== src/Buffer.antt =====
-- libkngin/include/kngin/core/base/buffer.h and libkngin/detail/core/base/buffer.cpp: cursors over
-- memory that the caller owns. A pointer is an address, `nullptr` is 0.
pub mod Out
pub mod In
pub mod Hex
pub mod Bounds
pub mod RoundTrip
mod Tests
