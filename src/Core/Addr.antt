-- ===== src/Core/Addr.antt =====
-- crates/oxibus-core/src/addr.rs: the addresses of servers. What `String::from_utf8_lossy` makes of
-- bytes that are no UTF-8 is the argument `lossy`.
pub mod RoundTrip
use oxibus.Base.{
  ℕ, zero, suc, ◌+◌, ◌-◌, ◌*◌, ◌/◌, ◌%◌, ◌^◌, Bool, true, false, not, ◌&&◌, ◌||◌, Option, none,
  some, List, [], ◌∷◌, ◌++◌, Text, codes, retain, beq, leb, ltb, ◌==◌, or_else, ok, err,
  out_of_fuel, ◌>>=◌, if◌then◌else◌,
}
use oxibus.Base.Assoc.{Assoc, lookup, insert}
use oxibus.Base.Decimal.{decimal}
use oxibus.Base.Strs.{split_once, parse_uint}
use oxibus.Core.Error.{CoreResult, invalid_address}
use oxibus.Core.Types.Paths.{split, is_ascii_alphanumeric}
use oxibus.Core.Utf8.{is_utf8}

pub data Address : Type 0 where
  unix_path : Text → Address
  unix_abstract : Text → Address
  unix_tmpdir : Text → Address
  tcp : Text → ℕ → Address
  systemd : Address

unfoldable pub hex_val : ℕ → Option ℕ
hex_val b =
    if leb b'0' b && leb b b'9'
    then some (b - b'0')
    else if leb b'a' b && leb b b'f'
    then some (b - b'a' + 10)
    else if leb b'A' b && leb b b'F'
    then some (b - b'A' + 10)
    else none

abbrev pub hex_pair : Option ℕ → Option ℕ → Option ℕ
hex_pair (some h) (some l) = some (h * 16 + l)
hex_pair (some h) none = none
hex_pair none _ = none

-- The byte that the two digits behind a `%` stand for.
abbrev pub escaped_byte : Text → Option ℕ
unfolding hex_val
escaped_byte [] = none
escaped_byte (b ∷ []) = none
escaped_byte (b ∷ c ∷ s) = hex_pair (hex_val b) (hex_val c)

-- The loop of `unescape`; the number counts the digits left of an escape.
unfoldable pub unescape_bytes : ℕ → Text → Text
unfolding escaped_byte
unescape_bytes n [] = []
unescape_bytes (suc n) (b ∷ s) = unescape_bytes n s
unescape_bytes zero (b ∷ s) = elim (if b == b'%' then escaped_byte s else none) [
  | some v ↦ v ∷ unescape_bytes 2 s
  | none ↦ b ∷ unescape_bytes 0 s
]

abbrev pub from_utf8_lossy : (Text → Text) → Text → Text
unfolding is_utf8
from_utf8_lossy lossy bytes = if is_utf8 bytes then bytes else lossy bytes

unfoldable pub unescape : (Text → Text) → Text → Text
unfolding unescape_bytes from_utf8_lossy
unescape lossy s = from_utf8_lossy lossy (unescape_bytes 0 s)

abbrev pub is_safe : ℕ → Bool
unfolding is_ascii_alphanumeric
is_safe b = is_ascii_alphanumeric b || b == b'-' || b == b'_' || b == b'/' || b == b'.' || b == 92

-- A digit of `{b:02x}`.
unfoldable pub hex_digit : ℕ → ℕ
hex_digit n = if ltb n 10 then b'0' + n else b'a' + (n - 10)

unfoldable pub escape : Text → Text
unfolding is_safe hex_digit
escape [] = []
escape (b ∷ s) =
    if is_safe b then b ∷ escape s else b'%' ∷ hex_digit (b / 16) ∷ hex_digit (b % 16) ∷ escape s

abbrev pub is_empty : Text → Bool
is_empty [] = true
is_empty (b ∷ s) = false

abbrev pub insert_pair : Text → Option (Text × Text) → Assoc Text → CoreResult (Assoc Text)
unfolding insert
insert_pair rest none m = err (invalid_address rest)
insert_pair rest (some (k, v)) m = ok (insert k v m)

-- The loop of `parse_kv` over the pieces between commas.
unfoldable pub parse_pairs : Text → List Text → Assoc Text → CoreResult (Assoc Text)
unfolding insert_pair split_once
parse_pairs rest [] m = ok m
parse_pairs rest (pair ∷ pairs) m = elim (is_empty pair) [
  | true ↦ parse_pairs rest pairs m
  | false ↦ insert_pair rest (split_once b'=' pair) m >>= λ m'. parse_pairs rest pairs m'
]

unfoldable pub parse_kv : Text → CoreResult (Assoc Text)
unfolding parse_pairs split
parse_kv rest = parse_pairs rest (split b',' rest) []

unfoldable pub parse_unix : (Text → Text) → Text → Assoc Text → CoreResult Address
unfolding lookup unescape
parse_unix lossy s kv = elim (lookup (codes "path") kv) [
  | some path ↦ ok (unix_path (unescape lossy path))
  | none ↦ elim (lookup (codes "abstract") kv) [
    | some abs ↦ ok (unix_abstract (unescape lossy abs))
    | none ↦ elim (lookup (codes "tmpdir") kv) [
      | some dir ↦ ok (unix_tmpdir (unescape lossy dir))
      | none ↦ err (invalid_address s)
    ]
  ]
]

abbrev pub port_of : Option Text → Option ℕ
unfolding parse_uint
port_of none = none
port_of (some p) = parse_uint (2 ^ 16) p

unfoldable pub parse_tcp : Text → Assoc Text → CoreResult Address
unfolding lookup port_of
parse_tcp s kv = elim (port_of (lookup (codes "port") kv)) [
  | some port ↦ ok (tcp (or_else (codes "localhost") (lookup (codes "host") kv)) port)
  | none ↦ err (invalid_address s)
]

abbrev pub parse_transport : (Text → Text) → Text → Text → Assoc Text → CoreResult Address
unfolding beq parse_unix parse_tcp
parse_transport lossy s transport kv =
    if beq transport (codes "unix")
    then parse_unix lossy s kv
    else if beq transport (codes "tcp")
    then parse_tcp s kv
    else err (
        invalid_address
          (codes "unsupported transport '" ++ (transport ++ (codes "' in '" ++ (s ++ codes "'")))))

unfoldable pub parse_one : (Text → Text) → Text → CoreResult Address
unfolding beq split_once parse_kv parse_transport
parse_one lossy s = if beq s (codes "systemd:") then ok systemd else elim (split_once b':' s) [
  | none ↦ err (invalid_address s)
  | some (transport, rest) ↦ parse_kv rest >>= λ kv. parse_transport lossy s transport kv
]

-- `collect` into a result: the first error ends it.
abbrev pub collect : (Text → Text) → List Text → CoreResult (List Address)
unfolding parse_one
collect lossy [] = ok []
collect lossy (part ∷ parts) =
    parse_one lossy part >>= λ a. collect lossy parts >>= λ as'. ok (a ∷ as')

unfoldable pub parse_list : (Text → Text) → Text → CoreResult (List Address)
unfolding split collect
parse_list lossy s = collect lossy (retain (λ part. not (is_empty part)) (split b';' s))

unfoldable pub to_address_string : Address → Text
unfolding escape decimal
to_address_string (unix_path p) = codes "unix:path=" ++ escape p
to_address_string (unix_abstract a) = codes "unix:abstract=" ++ escape a
to_address_string (unix_tmpdir d) = codes "unix:tmpdir=" ++ escape d
to_address_string (tcp host port) = codes "tcp:host=" ++ (host ++ (codes ",port=" ++ decimal port))
to_address_string systemd = codes "systemd:"
