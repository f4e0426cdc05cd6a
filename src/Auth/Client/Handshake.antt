-- ===== src/Auth/Client/Handshake.antt =====
-- The client of crates/oxibus-auth/src/client.rs and the server of server.rs meet.
use oxibus.Base.{
  ℕ, ◌<◌, ◌≡◌, ◌≢◌, refl, ap, ◌∙◌, true, false, ◌&&◌, ◌||◌, Option, some, List, [], ◌∷◌, ◌++◌, Text,
  codes, All, All-append, leb, beq, beq_refl, arith,
}
use oxibus.Base.Strs.{split_once, split_once-append, white_space, trim_after}
use oxibus.Core.Signature.{is_ascii}
use oxibus.Core.Utf8.{is_ascii-is_utf8}
use oxibus.Auth.Client.{ClientAction, ClientAuth, System, answer_challenge}
use oxibus.Auth.Lines.{split_command}
use oxibus.Auth.Mechanism.{dbus_cookie_sha1}
use oxibus.Auth.Server.{
  Crates, Key, Moment, ServerAuth, waiting_for_data, CookieState, ok, or_reject, reject_if, hex_key,
  expected_hash, is_empty, cookie_sha1_second_response, handle_cookie_sha1, dispatch_mechanism_data,
  handle_waiting_for_data, handle_in, feed_line,
}

abbrev pub IsHexDigit : ℕ → Type 0
IsHexDigit b = ((leb b'0' b && leb b b'9') || (leb b'a' b && leb b b'f')) ≡ true

abbrev pub IsBytes : Text → Type 0
IsBytes s = All (λ b. b < 256) s

-- What the crates document: `hex` writes digits and reads them back, the digest of `sha1` is bytes.
pub record IsHex (crates : Crates) : Type 0 where
  pub decoded : (s : Text) → IsBytes s → crates.hex_decode (crates.hex_encode s) ≡ some s
  pub digits : (s : Text) → IsBytes s → All IsHexDigit (crates.hex_encode s)
  pub digest : (s : Text) → IsBytes (crates.sha1 s)

digits-IsBytes : (s : Text) → All IsHexDigit s → IsBytes s
digits-IsBytes [] h = tt
digits-IsBytes (b ∷ s) (digit, h) = (ground arith, digits-IsBytes s h)

white_space_digit : (b : ℕ) (s : Text) → IsHexDigit b → white_space (b ∷ s) ≡ 0
unfolding white_space
white_space_digit b [] h = ground arith
white_space_digit b (c ∷ []) h = ground arith
white_space_digit b (c ∷ d ∷ s) h = ground arith

trim_after_digits : (s : Text) → All IsHexDigit s → trim_after 0 s ≡ s
unfolding trim_after
trim_after_digits [] h = refl
trim_after_digits (b ∷ s) (digit, h) = rw (trim_after, white_space_digit b s digit) refl

no_space : (s : Text) → All IsHexDigit s → All (λ b. b ≢ b' ') s
no_space [] h = tt
no_space (b ∷ s) (digit, h) = (ground arith, no_space s h)

is_ascii_digits :
    (s t : Text) → All IsHexDigit s → All IsHexDigit t → is_ascii (s ++ (b' ' ∷ t)) ≡ true
unfolding is_ascii
is_ascii_digits [] [] h h' = refl
is_ascii_digits [] (b ∷ t) h (digit, h') = ground (arith, is_ascii_digits [] t)
is_ascii_digits (b ∷ s) t (digit, h) h' = ground (arith, is_ascii_digits s t)

module _ (crates : Crates) (hex : IsHex crates) (moment : Moment) where
  second_response_lem :
      (a : ServerAuth) (id : ℕ) (cookie : CookieState) (challenge client home cookie_hex : Text)
      (keyring : List Key)
      → cookie.server_challenge_hex ≡ some challenge
      → a.home_dir ≡ some home
      → moment.load home ≡ some keyring
      → hex_key crates id keyring ≡ some cookie_hex
      → All IsHexDigit client
      → is_empty client ≡ false
      → is_empty (expected_hash crates challenge client cookie_hex) ≡ false
      → All IsHexDigit (expected_hash crates challenge client cookie_hex)
      → cookie_sha1_second_response crates moment id cookie
          (client ++ (b' ' ∷ expected_hash crates challenge client cookie_hex))
          a
        ≡ ok (some a.peer.uid) a
  unfolding cookie_sha1_second_response or_reject reject_if
  second_response_lem a id cookie challenge client home cookie_hex keyring e1 e2 e3 e4 h e5 e6 h' =
      rw
        (
          is_ascii-is_utf8 (client ++ (b' ' ∷ expected_hash crates challenge client cookie_hex))
              (is_ascii_digits client (expected_hash crates challenge client cookie_hex) h h'),
          split_once-append b' ' client (expected_hash crates challenge client cookie_hex)
              (no_space client h),
          e5,
          e6,
          e2,
          e3,
          e4,
          e1,
          beq_refl (expected_hash crates challenge client cookie_hex),
        )
        refl

  split_command-data :
      (h : Text) → All IsHexDigit h → split_command (codes "DATA " ++ h) ≡ (codes "DATA", h)
  unfolding split_command split_once
  split_command-data h digits = ap (λ t. (codes "DATA", t)) (trim_after_digits h digits)

  -- The server reads the text that the client encoded.
  feed_line-data :
      (a : ServerAuth) (id : ℕ) (challenge : Option Text) (text : Text)
      → IsBytes text
      → a.state
        ≡ waiting_for_data dbus_cookie_sha1
            (record { cookie_id = some id; server_challenge_hex = challenge })
      → feed_line crates moment (codes "DATA " ++ crates.hex_encode text) a
        ≡ cookie_sha1_second_response crates moment id
            (record { cookie_id = some id; server_challenge_hex = challenge })
            text
            a
  unfolding feed_line handle_waiting_for_data dispatch_mechanism_data handle_cookie_sha1 or_reject
      beq
  feed_line-data a id challenge text bytes here =
      ap (λ parts. handle_in crates moment a.state parts.0 parts.1 a)
        (split_command-data (crates.hex_encode text) (hex.digits text bytes))
      ∙ ap (λ s. handle_in crates moment s (codes "DATA") (crates.hex_encode text) a) here
      ∙ rw (hex.decoded text bytes) refl

-- A client that reads the same secret under the number of the cookie answers the challenge of the
-- server with a line that the server accepts, as the user that the kernel names for the socket. The
-- crate `hex` reads back what it writes, and writes something for the client's challenge and the
-- digest.
pub answer_challenge-accepted :
    (crates : Crates) (hex : IsHex crates) (moment : Moment) (system : System) (a : ServerAuth)
    (c : ClientAuth) (id : ℕ) (challenge home cookie_hex : Text)
    (server_keys client_keys : List Key)
    → a.state
      ≡ waiting_for_data dbus_cookie_sha1
          (record { cookie_id = some id; server_challenge_hex = some challenge })
    → a.home_dir ≡ some home
    → moment.load home ≡ some server_keys
    → hex_key crates id server_keys ≡ some cookie_hex
    → hex_key crates id client_keys ≡ some cookie_hex
    → IsBytes system.challenge_raw
    → is_empty (crates.hex_encode system.challenge_raw) ≡ false
    → is_empty (expected_hash crates challenge (crates.hex_encode system.challenge_raw) cookie_hex)
      ≡ false
    → (line : Text) × ((answer_challenge crates system challenge id client_keys c).0
        ≡ ClientAction.send line)
      × (feed_line crates moment line a ≡ ok (some a.peer.uid) a)
unfolding answer_challenge expected_hash
answer_challenge-accepted crates hex moment system a c id challenge home cookie_hex server_keys
      client_keys here e2 e3 e4 e4' raw e5 e6 =
    let client = crates.hex_encode system.challenge_raw in
    let hash = expected_hash crates challenge (crates.hex_encode system.challenge_raw) cookie_hex in
    let client_digits = hex.digits system.challenge_raw raw in
    let hash_digits = hex.digits _ (hex.digest _) in
    (
      codes "DATA " ++ crates.hex_encode (client ++ (b' ' ∷ hash)),
      rw (e4', answer_challenge) refl,
      feed_line-data crates hex moment a id (some challenge) (client ++ (b' ' ∷ hash))
            (All-append (λ b. b < 256) client (b' ' ∷ hash) (digits-IsBytes client client_digits)
              (omega arith, digits-IsBytes hash hash_digits))
            here
          ∙ second_response_lem crates hex moment a id
              (record { cookie_id = some id; server_challenge_hex = some challenge }) challenge
              client home cookie_hex server_keys refl e2 e3 e4 client_digits e5 e6 hash_digits,
    )
