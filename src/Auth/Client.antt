-- ===== src/Auth/Client.antt =====
-- crates/oxibus-auth/src/client.rs: the client's side of the SASL handshake, one line at a time.
pub mod Handshake
use oxibus.Base.{
  ℕ, zero, suc, ◌+◌, Bool, true, false, Option, none, some, List, [], ◌∷◌, ◌++◌, Text, codes,
  length, get_elem?, find_map, ltb, beq, ◌==◌, if◌then◌else◌, ◌⊎◌, inl, inr,
}
use oxibus.Base.Decimal.{decimal}
use oxibus.Base.Strs.{split_once, white_space, trim_after, parse_u32}
use oxibus.Core.Utf8.{is_utf8}
use oxibus.Auth.Mechanism.{Mechanism, external, dbus_cookie_sha1, anonymous}
use oxibus.Auth.Server.{Crates, Key, hex_key}

pub data ClientAction : Type 0 where
  send : Text → ClientAction
  authenticated : ClientAction
  mechanism_rejected : List Text → ClientAction
  protocol_error : Text → ClientAction

pub data State : Type 0 where
  init : State
  waiting_for_data_or_ok : Mechanism → Option ℕ → State
  waiting_for_agree_unix_fd : State
  authenticated : State

pub record ClientAuth : Type 0 where
  pub mechanisms : List Mechanism
  pub tried : ℕ
  pub state : State
  pub want_unix_fd : Bool
  pub home_dir : Option Text

-- What the system answers: the user of the process, the keys that `Keyring::load` reads for a home
-- and a context, or its error, and the random challenge.
pub record System : Type 0 where
  pub current_uid : ℕ
  pub load : Text → Text → Text ⊎ List Key
  pub challenge_raw : Text

abbrev pub Answer : Type 0
Answer = ClientAction × ClientAuth

unfoldable pub new : List Mechanism → Bool → Option Text → ClientAuth
new mechanisms want_unix_fd home = record {
  mechanisms = mechanisms;
  tried = 0;
  state = State.init;
  want_unix_fd = want_unix_fd;
  home_dir = home;
}

abbrev pub auth_line : Crates → System → Mechanism → Text
unfolding decimal
auth_line crates system external =
    codes "AUTH EXTERNAL " ++ crates.hex_encode (decimal system.current_uid)
auth_line crates system anonymous = codes "AUTH ANONYMOUS " ++ crates.hex_encode (codes "oxibus")
auth_line crates system dbus_cookie_sha1 =
    codes "AUTH DBUS_COOKIE_SHA1 " ++ crates.hex_encode (decimal system.current_uid)

-- None where the index panics.
unfoldable pub begin_mechanism : Crates → System → ℕ → ClientAuth → Option (Text × ClientAuth)
unfolding auth_line
begin_mechanism crates system index c = elim (get_elem? c.mechanisms index) [
  | none ↦ none
  | some mechanism ↦ some (
    auth_line crates system mechanism,
    record c { tried = index; state = waiting_for_data_or_ok mechanism none },
  )
]

unfoldable pub start : Crates → System → ClientAuth → Option (Text × ClientAuth)
unfolding begin_mechanism
start crates system c = begin_mechanism crates system 0 c

abbrev pub has_more_mechanisms : ClientAuth → Bool
has_more_mechanisms c = ltb (c.tried + 1) (length c.mechanisms)

unfoldable pub try_next_mechanism : Crates → System → ClientAuth → Option (Text × ClientAuth)
unfolding begin_mechanism
try_next_mechanism crates system c =
    if has_more_mechanisms c then begin_mechanism crates system (c.tried + 1) c else none

abbrev pub push_word : Text → List Text → List Text
push_word [] words = words
push_word (b ∷ w) words = (b ∷ w) ∷ words

-- `split_whitespace`, with the word so far; the number counts the bytes left of the white space.
unfoldable pub split_whitespace : ℕ → Text → Text → List Text
unfolding white_space
split_whitespace n word [] = push_word word []
split_whitespace (suc n) word (b ∷ s) = split_whitespace n word s
split_whitespace zero word (b ∷ s) = elim (white_space (b ∷ s)) [
  | zero ↦ split_whitespace 0 (word ++ (b ∷ [])) s
  | suc n ↦ push_word word (split_whitespace n [] s)
]

abbrev pub is_empty : Text → Bool
is_empty [] = true
is_empty (b ∷ s) = false

-- `trim_end`: a text that is white space to its end is cut.
unfoldable pub trim_end : Text → Text
unfolding trim_after
trim_end [] = []
trim_end (b ∷ s) = let rest = trim_end s in if is_empty (trim_after 0 (b ∷ s)) then [] else b ∷ rest

abbrev pub trim : Text → Text
unfolding trim_after trim_end
trim s = trim_end (trim_after 0 s)

-- `splitn(3, ' ')`, if there are three parts.
abbrev pub three_parts : Text → Option (Text × Text × Text)
unfolding split_once
three_parts text = elim (split_once b' ' text) [
  | none ↦ none
  | some (context, rest) ↦ elim (split_once b' ' rest) [
    | none ↦ none
    | some (cookie_id, challenge) ↦ some (context, cookie_id, challenge)
  ]
]

-- The response, and the state that remembers the cookie.
unfoldable pub answer_challenge : Crates → System → Text → ℕ → List Key → ClientAuth → Answer
unfolding hex_key decimal
answer_challenge crates system server_challenge_hex cookie_id keyring c =
    elim (hex_key crates cookie_id keyring) [
      | none ↦ (protocol_error (codes "unknown cookie id " ++ decimal cookie_id), c)
      | some cookie_hex ↦
          let client_challenge_hex = crates.hex_encode system.challenge_raw in
          let to_hash =
            server_challenge_hex ++ codes ":" ++ client_challenge_hex ++ codes ":" ++ cookie_hex in
          let hash_hex = crates.hex_encode (crates.sha1 to_hash) in
          (
            send (
                codes "DATA "
                ++ crates.hex_encode (client_challenge_hex ++ (codes " " ++ hash_hex))),
            record c { state = waiting_for_data_or_ok dbus_cookie_sha1 (some cookie_id) },
          )
    ]

unfoldable pub with_keyring : Crates → System → Text → Text → ℕ → ClientAuth → Option Text → Answer
unfolding answer_challenge
with_keyring crates system context challenge cookie_id c none =
    (protocol_error (codes "no HOME for keyring"), c)
with_keyring crates system context challenge cookie_id c (some home) =
    elim (system.load home context) [
      | inr keyring ↦ answer_challenge crates system challenge cookie_id keyring c
      | inl e ↦ (protocol_error e, c)
    ]

unfoldable pub respond_to_cookie_challenge : Crates → System → Text → ClientAuth → Answer
unfolding is_utf8 parse_u32 with_keyring three_parts
respond_to_cookie_challenge crates system text c =
    if is_utf8 text
    then elim (three_parts text) [
      | none ↦ (protocol_error (codes "malformed cookie challenge"), c)
      | some (context, cookie_id_str, challenge) ↦ elim (parse_u32 cookie_id_str) [
        | none ↦ (protocol_error (codes "bad cookie id"), c)
        | some cookie_id ↦ with_keyring crates system context challenge cookie_id c c.home_dir
      ]
    ]
    else (protocol_error (codes "non-UTF8 cookie challenge"), c)

abbrev pub sent : Option (Text × ClientAuth) → Option Answer
sent none = none
sent (some (line, c)) = some (send line, c)

-- None where the index of `begin_mechanism` panics.
unfoldable pub answer_data :
    Crates → System → Text → ClientAuth → Mechanism → Option ℕ → Option Answer
unfolding begin_mechanism respond_to_cookie_challenge
answer_data crates system data' c external pending = sent (begin_mechanism crates system c.tried c)
answer_data crates system data' c anonymous pending = sent (begin_mechanism crates system c.tried c)
answer_data crates system data' c dbus_cookie_sha1 (some id) =
    some (protocol_error (codes "unexpected second DATA challenge for DBUS_COOKIE_SHA1"), c)
answer_data crates system data' c dbus_cookie_sha1 none =
    some (respond_to_cookie_challenge crates system data' c)

abbrev pub handle_data_in : Crates → System → Text → ClientAuth → State → Option Answer
unfolding answer_data
handle_data_in crates system hex_payload c (waiting_for_data_or_ok mechanism pending) =
    elim (crates.hex_decode hex_payload) [
      | none ↦ some (protocol_error (codes "bad hex in DATA"), c)
      | some data' ↦ answer_data crates system data' c mechanism pending
    ]
handle_data_in crates system hex_payload c State.init =
    some (protocol_error (codes "DATA received in wrong state"), c)
handle_data_in crates system hex_payload c State.waiting_for_agree_unix_fd =
    some (protocol_error (codes "DATA received in wrong state"), c)
handle_data_in crates system hex_payload c State.authenticated =
    some (protocol_error (codes "DATA received in wrong state"), c)

unfoldable pub handle_data : Crates → System → Text → ClientAuth → Option Answer
unfolding handle_data_in
handle_data crates system hex_payload c = handle_data_in crates system hex_payload c c.state

-- `split_once(' ').unwrap_or((line, ""))`
abbrev pub command_and_rest : Text → Text × Text
unfolding split_once
command_and_rest line = elim (split_once b' ' line) [ none ↦ (line, []) | some parts ↦ parts ]

unfoldable pub feed_line : Crates → System → Text → ClientAuth → Option Answer
unfolding beq command_and_rest split_whitespace handle_data trim
feed_line crates system line c =
    let (command, rest) = command_and_rest line in
    if beq command (codes "OK")
    then some (ClientAction.authenticated, record c { state = State.authenticated })
    else if beq command (codes "REJECTED")
    then some (mechanism_rejected (split_whitespace 0 [] rest), c)
    else if beq command (codes "DATA")
    then handle_data crates system (trim rest) c
    else if beq command (codes "ERROR")
    then some (protocol_error rest, c)
    else if beq command (codes "AGREE_UNIX_FD")
    then some (ClientAction.authenticated, c)
    else some (protocol_error (codes "unexpected server command: " ++ command), c)

unfoldable pub finish_lines : ClientAuth → (List Text × Bool) × ClientAuth
finish_lines c =
    if c.want_unix_fd
    then (
      (codes "NEGOTIATE_UNIX_FD" ∷ codes "BEGIN" ∷ [], true),
      record c { state = waiting_for_agree_unix_fd },
    )
    else ((codes "BEGIN" ∷ [], false), c)
