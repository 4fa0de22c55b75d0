-- ===== src/Protocol.antt =====
-- internal/protocol/types.go: the messages of the protocol, their hashes and signing bytes.
pub mod Types
pub mod Primitives
pub mod Hashes
unfoldable pub use Types.*
pub use Primitives.{Value, Crypto}
unfoldable pub use Hashes.*
