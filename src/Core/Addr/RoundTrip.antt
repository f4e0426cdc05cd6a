-- ===== src/Core/Addr/RoundTrip.antt =====
-- Addresses in crates/oxibus-core/src/addr.rs are read back as they are written.
use oxibus.Base.{
  ℕ, ◌+◌, ◌*◌, ◌/◌, ◌%◌, ◌<◌, ◌≡◌, ◌≢◌, ◌⊎◌, refl, ap, ◌∙◌, true, false, some, [], ◌∷◌, ◌++◌, Text,
  codes, All, All-append, beq, ◌==◌, ok, if_ind, Bool-cases, inl, inr, arith,
}
use oxibus.Base.Assoc.{lookup, insert, remove}
use oxibus.Base.Strs.{split_once, split_once-append}
use oxibus.Core.Addr.{
  Address, unix_path, unix_abstract, unix_tmpdir, tcp, systemd, hex_val, unescape_bytes,
  from_utf8_lossy, unescape, is_safe, hex_digit, escape, parse_pairs, parse_kv, parse_unix,
  parse_transport, parse_one, to_address_string,
}
use oxibus.Core.Types.Paths.{split, is_ascii_alphanumeric}
use oxibus.Core.Utf8.{is_utf8}

pub hex_val-hex_digit : (n : ℕ) → n < 16 → hex_val (hex_digit n) ≡ some n
unfolding hex_val hex_digit
hex_val-hex_digit n h = ground arith

is_safe_percent : (b : ℕ) → is_safe b ≡ true → (b == b'%' ≡ false) × (b == b',' ≡ false)
unfolding is_safe is_ascii_alphanumeric
is_safe_percent b h = (ground arith, ground arith)

unescape_bytes-escape : (s : Text) → All (λ b. b < 256) s → unescape_bytes 0 (escape s) ≡ s
unfolding unescape_bytes escape
unescape_bytes-escape [] h = refl
unescape_bytes-escape (b ∷ s) (small, h) =
    by_safe (Bool-cases (is_safe b)) (unescape_bytes-escape s h)
  where
    by_safe :
        (is_safe b ≡ true) ⊎ (is_safe b ≡ false)
        → unescape_bytes 0 (escape s) ≡ s
        → unescape_bytes 0 (escape (b ∷ s)) ≡ b ∷ s
    by_safe (inl safe) ih = rw (safe, unescape_bytes, (is_safe_percent b safe).0) (ap (◌∷◌ b) ih)
    by_safe (inr unsafe) ih =
        rw
          (
            unsafe,
            unescape_bytes,
            hex_val-hex_digit (b / 16) (omega arith),
            hex_val-hex_digit (b % 16) (omega arith),
          )
          (ap (◌∷◌ (b / 16 * 16 + b % 16)) ih ∙ ap (λ c. c ∷ s) (omega arith))

escape-All : (s : Text) → All (λ b. b < 256) s → All (λ b. b ≢ b',') (escape s)
unfolding escape
escape-All [] h = tt
escape-All (b ∷ s) (small, h) =
    let rest : All (λ b. b ≢ b',') (escape s) = escape-All s h in
    if_ind (All (λ b. b ≢ b',')) (is_safe b) _ _
      (λ safe. (ground (arith, (is_safe_percent b safe).1), rest))
      (λ _. (omega arith, (digit (b / 16), (digit (b % 16), rest))))
  where
    digit : (n : ℕ) → hex_digit n ≢ b','
    digit n = unfold hex_digit in ground arith

split-All : (c : ℕ) (s : Text) → All (λ b. b ≢ c) s → split c s ≡ s ∷ []
unfolding split
split-All c [] h = refl
split-All c (b ∷ s) (other, h) = ground (arith, split-All c s h)

-- One pair of a key and a value.
parse_kv-pair :
    (b : ℕ) (key value : Text)
    → All (λ c. c ≢ b',') (b ∷ key)
    → All (λ c. c ≢ b'=') (b ∷ key)
    → All (λ c. c ≢ b',') value
    → parse_kv ((b ∷ key) ++ (b'=' ∷ value)) ≡ ok ((b ∷ key, value) ∷ [])
unfolding parse_kv parse_pairs insert remove
parse_kv-pair b key value h h' h'' =
    let plain : All (λ c. c ≢ b',') ((b ∷ key) ++ (b'=' ∷ value)) =
      All-append (λ c. c ≢ b',') (b ∷ key) (b'=' ∷ value) h (omega arith, h'') in
    ap (λ pieces. parse_pairs ((b ∷ key) ++ (b'=' ∷ value)) pieces [])
      (split-All b',' ((b ∷ key) ++ (b'=' ∷ value)) plain)
    ∙ rw (parse_pairs, split_once-append b'=' (b ∷ key) value h') refl

-- The bytes of a `String`.
abbrev pub IsString : Text → Type 0
IsString s = All (λ b. b < 256) s × (is_utf8 s ≡ true)

unescape-escape : (lossy : Text → Text) (s : Text) → IsString s → unescape lossy (escape s) ≡ s
unfolding unescape from_utf8_lossy
unescape-escape lossy s (bytes, valid) = rw (unescape_bytes-escape s bytes, valid) refl

-- An address of a local socket, or that of systemd.
abbrev pub IsLocal : Address → Type 0
IsLocal (unix_path p) = IsString p
IsLocal (unix_abstract a) = IsString a
IsLocal (unix_tmpdir d) = IsString d
IsLocal (tcp host port) = ⊥
IsLocal systemd = Unit {0}

-- An address of a local socket is read back as it is written, whatever its path: all that the syntax
-- of addresses takes for itself is escaped.
pub parse_one-to_address_string :
    (lossy : Text → Text) (a : Address) → IsLocal a → parse_one lossy (to_address_string a) ≡ ok a
unfolding parse_one to_address_string split_once beq parse_transport parse_unix lookup
parse_one-to_address_string lossy (unix_path p) h =
    rw (parse_kv-pair b'p' (codes "ath") (escape p) (omega arith) (omega arith) (escape-All p h.0))
      (ap (λ s. ok (unix_path s)) (unescape-escape lossy p h))
parse_one-to_address_string lossy (unix_abstract a) h =
    rw
      (parse_kv-pair b'a' (codes "bstract") (escape a) (omega arith) (omega arith)
        (escape-All a h.0))
      (ap (λ s. ok (unix_abstract s)) (unescape-escape lossy a h))
parse_one-to_address_string lossy (unix_tmpdir d) h =
    rw
      (parse_kv-pair b't' (codes "mpdir") (escape d) (omega arith) (omega arith) (escape-All d h.0))
      (ap (λ s. ok (unix_tmpdir s)) (unescape-escape lossy d h))
parse_one-to_address_string lossy (tcp host port) h = absurd h
parse_one-to_address_string lossy systemd h = refl
