-- ===== src/Auth/Server.antt =====
-- crates/oxibus-auth/src/server.rs: the server's side of the SASL handshake, one line at a time.
pub mod Handlers
pub mod Sound
pub mod Session
pub mod External
use oxibus.Base.{
  ℕ, ◌+◌, ◌%◌, ◌^◌, Bool, true, false, not, ◌&&◌, ◌||◌, Option, none, some, List, [], ◌∷◌, ◌++◌,
  Text, codes, any, find_map, leb, beq, ◌==◌, if◌then◌else◌,
}
use oxibus.Base.Decimal.{decimal}
use oxibus.Core.Utf8.{is_utf8}
use oxibus.Transport.{PeerCredentials}
use oxibus.Auth.Mechanism
use oxibus.Auth.Mechanism.{Mechanism, external, dbus_cookie_sha1, anonymous, mechanism_list_string}
use oxibus.Base.Strs.{split_once, parse_u32}
use oxibus.Auth.Lines.{split_command}

-- `DEFAULT_CONTEXT` of keyring.rs.
abbrev pub default_context : Text
default_context = codes "org_freedesktop_general"

abbrev pub max_failures : ℕ
max_failures = 6

-- A key of the keyring, as far as `hex_key` reads it.
pub record Key : Type 0 where
  pub id : ℕ
  pub secret : Text

-- The crates `hex` and `sha1`.
pub record Crates : Type 0 where
  pub hex_encode : Text → Text
  pub hex_decode : Text → Option Text
  pub sha1 : Text → Text

-- What the system answers while one line is handled: the keys that `Keyring::load` reads below a
-- home directory, the key that `best_key` picks or makes, the random challenge, and the user that the
-- server runs as.
pub record Moment : Type 0 where
  pub load : Text → Option (List Key)
  pub best_key : List Key → Option ℕ
  pub challenge_raw : Text
  pub current_uid : ℕ

pub record CookieState : Type 0 where
  pub cookie_id : Option ℕ
  pub server_challenge_hex : Option Text

abbrev pub default_cookie : CookieState
default_cookie = record { cookie_id = none; server_challenge_hex = none }

pub data State : Type 0 where
  waiting_for_auth : State
  waiting_for_data : Mechanism → CookieState → State
  waiting_for_begin : Option ℕ → State

pub data ServerAction : Type 0 where
  send : List Text → ServerAction
  begin : Option ℕ → ServerAction
  disconnect : Text → ServerAction

pub record ServerAuth : Type 0 where
  pub peer : PeerCredentials
  pub allowed_mechanisms : List Mechanism
  pub allow_anonymous : Bool
  pub guid_hex : Text
  pub state : State
  pub failures : ℕ
  pub unix_fd_negotiated : Bool
  pub home_dir : Option Text

abbrev pub Answer : Type 0
Answer = ServerAction × ServerAuth

unfoldable pub new : PeerCredentials → List Mechanism → Bool → Text → Option Text → ServerAuth
new peer allowed_mechanisms allow_anonymous guid_hex home = record {
  peer = peer;
  allowed_mechanisms = allowed_mechanisms;
  allow_anonymous = allow_anonymous;
  guid_hex = guid_hex;
  state = waiting_for_auth;
  failures = 0;
  unix_fd_negotiated = false;
  home_dir = home;
}

-- `failures` is a `u32`.
unfoldable pub rejected : ServerAuth → Answer
unfolding mechanism_list_string
rejected a =
    let failures = (a.failures + 1) % 2 ^ 32 in
    (
      if leb max_failures failures
          then disconnect (codes "too many authentication failures")
          else send ((codes "REJECTED " ++ mechanism_list_string a.allowed_mechanisms) ∷ []),
      record a { failures = failures; state = waiting_for_auth },
    )

unfoldable pub ok : Option ℕ → ServerAuth → Answer
ok uid a = (send ((codes "OK " ++ a.guid_hex) ∷ []), record a { state = waiting_for_begin uid })

unfoldable pub error : Text → ServerAuth → Answer
error msg a = (send ((codes "ERROR " ++ (b'"' ∷ msg) ++ (b'"' ∷ [])) ∷ []), a)

-- `let Some(x) = o else { return self.rejected() }`
unfoldable pub or_reject {ℓ} : {A : Type ℓ} → ServerAuth → Option A → (A → Answer) → Answer
unfolding rejected
or_reject a none k = rejected a
or_reject a (some x) k = k x

-- `if t { return self.rejected() }`
unfoldable pub reject_if : ServerAuth → Bool → Answer → Answer
unfolding rejected
reject_if a true k = rejected a
reject_if a false k = k

-- The user that the client asks for, `Some(self.peer.uid)` if it names none.
unfoldable pub desired_uid : ServerAuth → Text → Option ℕ
unfolding is_utf8 parse_u32
desired_uid a [] = some a.peer.uid
desired_uid a (b ∷ data') = if is_utf8 (b ∷ data') then parse_u32 (b ∷ data') else none

abbrev pub is_uid : ℕ → Option ℕ → Bool
is_uid uid none = false
is_uid uid (some d) = d == uid

unfoldable pub handle_external : Text → ServerAuth → Answer
unfolding desired_uid
handle_external data' a =
    if is_uid a.peer.uid (desired_uid a data') then ok (some a.peer.uid) a else rejected a

unfoldable pub handle_anonymous : ServerAuth → Answer
unfolding ok
handle_anonymous a = ok none a

-- `Keyring::hex_key`
unfoldable pub hex_key : Crates → ℕ → List Key → Option Text
hex_key crates id = find_map (λ k. if k.id == id then some (crates.hex_encode k.secret) else none)

unfoldable pub cookie_sha1_first_response : Crates → Moment → Text → ServerAuth → Answer
unfolding desired_uid decimal
cookie_sha1_first_response crates moment data' a =
    reject_if a
      (not (is_uid a.peer.uid (desired_uid a data')) || not (a.peer.uid == moment.current_uid))
      (or_reject a a.home_dir λ home. or_reject a (moment.load home) λ keyring.
        or_reject a (moment.best_key keyring) λ cookie_id.
          let challenge_hex = crates.hex_encode moment.challenge_raw in
          let reply =
            default_context ++ codes " " ++ decimal cookie_id ++ codes " " ++ challenge_hex in
          (
            send ((codes "DATA " ++ crates.hex_encode reply) ∷ []),
            record a {
              state = waiting_for_data dbus_cookie_sha1 (record {
                cookie_id = some cookie_id;
                server_challenge_hex = some challenge_hex;
              });
            },
          ))

abbrev pub text_or_default : Option Text → Text
text_or_default none = []
text_or_default (some s) = s

unfoldable pub expected_hash : Crates → Text → Text → Text → Text
expected_hash crates server_challenge_hex client_challenge_hex cookie_hex = crates.hex_encode (
    crates.sha1
      (server_challenge_hex ++ codes ":" ++ client_challenge_hex ++ codes ":" ++ cookie_hex))

abbrev pub is_empty : Text → Bool
is_empty [] = true
is_empty (b ∷ s) = false

unfoldable pub cookie_sha1_second_response :
    Crates → Moment → ℕ → CookieState → Text → ServerAuth → Answer
unfolding is_utf8 split_once hex_key expected_hash ok
cookie_sha1_second_response crates moment cookie_id cookie text a =
    reject_if a (not (is_utf8 text)) (
      or_reject a (split_once b' ' text) λ (client_challenge_hex, client_hash_hex).
        reject_if a (is_empty client_challenge_hex || is_empty client_hash_hex) (
          or_reject a a.home_dir λ home. or_reject a (moment.load home) λ keyring.
            or_reject a (hex_key crates cookie_id keyring) λ cookie_hex.
              let server_challenge_hex = text_or_default cookie.server_challenge_hex in
              reject_if a
                (not (
                  beq (expected_hash crates server_challenge_hex client_challenge_hex cookie_hex)
                    client_hash_hex))
                (ok (some a.peer.uid) a)))

-- `cookie` is the one of the state `WaitingForData`.
unfoldable pub handle_cookie_sha1 : Crates → Moment → CookieState → Text → ServerAuth → Answer
unfolding cookie_sha1_first_response cookie_sha1_second_response
handle_cookie_sha1 crates moment cookie data' a = elim cookie.cookie_id [
  | none ↦ cookie_sha1_first_response crates moment data' a
  | some id ↦ cookie_sha1_second_response crates moment id cookie data' a
]

unfoldable pub dispatch_mechanism_data :
    Crates → Moment → Mechanism → CookieState → Text → ServerAuth → Answer
unfolding handle_external handle_anonymous handle_cookie_sha1
dispatch_mechanism_data crates moment external cookie data' a = handle_external data' a
dispatch_mechanism_data crates moment anonymous cookie data' a = handle_anonymous a
dispatch_mechanism_data crates moment dbus_cookie_sha1 cookie data' a =
    handle_cookie_sha1 crates moment cookie data' a

-- `AUTH` with a mechanism and, after it, the initial response.
unfoldable pub start_mechanism : Crates → Moment → Option Text → Mechanism → ServerAuth → Answer
unfolding dispatch_mechanism_data
start_mechanism crates moment none mechanism a =
    (send (codes "DATA " ∷ []), record a { state = waiting_for_data mechanism default_cookie })
start_mechanism crates moment (some hex_data) mechanism a =
    or_reject a (crates.hex_decode hex_data) λ data'.
      dispatch_mechanism_data crates moment mechanism default_cookie data'
        (record a { state = waiting_for_data mechanism default_cookie })

-- `splitn(2, ' ')`
abbrev pub mechanism_and_data : Text → Text × Option Text
unfolding split_once
mechanism_and_data rest = elim (split_once b' ' rest) [
  | none ↦ (rest, none)
  | some (front, back) ↦ (front, some back)
]

abbrev pub is_barred : ServerAuth → Mechanism → Bool
is_barred a m =
    not (any (λ n. Mechanism.same n m) a.allowed_mechanisms)
    || (Mechanism.same m anonymous && not a.allow_anonymous)

unfoldable pub handle_auth : Crates → Moment → Text → ServerAuth → Answer
unfolding split_once Mechanism.parse start_mechanism
handle_auth crates moment rest a = reject_if a (is_empty rest) (
    let (mech_name, initial_hex) = mechanism_and_data rest in
    or_reject a (Mechanism.parse mech_name) λ mechanism.
      reject_if a (is_barred a mechanism) (start_mechanism crates moment initial_hex mechanism a))

unfoldable pub handle_waiting_for_auth : Crates → Moment → Text → Text → ServerAuth → Answer
unfolding beq handle_auth
handle_waiting_for_auth crates moment command rest a =
    if beq command (codes "AUTH")
    then handle_auth crates moment rest a
    else if beq command (codes "ERROR")
    then rejected a
    else error (codes "Sent unexpected command while expecting AUTH") a

unfoldable pub handle_waiting_for_data :
    Crates → Moment → Mechanism → CookieState → Text → Text → ServerAuth → Answer
unfolding beq dispatch_mechanism_data
handle_waiting_for_data crates moment mechanism cookie command rest a =
    if beq command (codes "DATA")
    then (or_reject a (crates.hex_decode rest)
        λ data'. dispatch_mechanism_data crates moment mechanism cookie data' a)
    else if beq command (codes "CANCEL") || beq command (codes "ERROR")
    then rejected a
    else if beq command (codes "BEGIN")
    then error (codes "Sent BEGIN while expecting DATA") a
    else if beq command (codes "AUTH")
    then error (codes "Sent AUTH while expecting DATA") a
    else error (codes "Unknown command while expecting DATA") a

unfoldable pub handle_waiting_for_begin : Option ℕ → Text → ServerAuth → Answer
unfolding beq
handle_waiting_for_begin uid command a =
    if beq command (codes "BEGIN")
    then (begin uid, a)
    else if beq command (codes "NEGOTIATE_UNIX_FD")
    then (send (codes "AGREE_UNIX_FD" ∷ []), record a { unix_fd_negotiated = true })
    else if beq command (codes "CANCEL") || beq command (codes "ERROR")
    then rejected a
    else error (codes "Unknown command while expecting BEGIN") a

abbrev pub handle_in : Crates → Moment → State → Text → Text → ServerAuth → Answer
handle_in crates moment waiting_for_auth command rest a =
    handle_waiting_for_auth crates moment command rest a
handle_in crates moment (waiting_for_data mechanism cookie) command rest a =
    handle_waiting_for_data crates moment mechanism cookie command rest a
handle_in crates moment (waiting_for_begin uid) command rest a =
    handle_waiting_for_begin uid command a

unfoldable pub feed_line : Crates → Moment → Text → ServerAuth → Answer
unfolding split_command
feed_line crates moment line a =
    let (command, rest) = split_command line in handle_in crates moment a.state command rest a
