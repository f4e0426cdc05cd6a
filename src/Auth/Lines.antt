-- ===== src/Auth/Lines.antt =====
-- `split_command` of crates/oxibus-auth/src/server.rs.
use oxibus.Base.{none, some, [], Text}
use oxibus.Base.Strs.{split_once, trim_after}

unfoldable pub split_command : Text → Text × Text
unfolding split_once trim_after
split_command line = elim (split_once b' ' line) [
  | none ↦ (line, [])
  | some (cmd, rest) ↦ (cmd, trim_after 0 rest)
]
