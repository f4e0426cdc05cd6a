-- ===== src/Transport.antt =====
-- crates/oxibus-transport/src/credentials.rs: what the kernel tells of the other end of a socket.
use oxibus.Base.{ℕ}
use oxibus.Core.Types.Int.{ℤ}

pub record PeerCredentials : Type 0 where
  pub uid : ℕ
  pub gid : ℕ
  pub pid : ℤ
