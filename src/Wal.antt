-- ===== src/Wal.antt =====
-- core/wal.go: the record format and `ReplayWal`. `encoding/binary` and `io.ReadFull` are Go's
-- standard library. A length that no memory can hold makes Go's `make` panic before the read; here
-- the read of so many bytes meets the end of the file.
pub mod Codec
pub mod RoundTrip
pub mod Readers
pub mod Replay
pub mod Recovery
pub mod Writer
pub use Codec.*
