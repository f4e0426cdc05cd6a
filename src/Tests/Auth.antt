-- ===== src/Tests/Auth.antt =====
-- The theorems on crates/oxibus-auth at a concrete handshake.
use oxibus.Base.{◌/◌, ◌%◌, All, inr, ap, ◌∙◌, ◌+◌, ◌*◌, false}
use oxibus.Core.Addr.{hex_digit, hex_val, hex_pair}
use oxibus.Core.Addr.RoundTrip.{hex_val-hex_digit}
use oxibus.Auth.Client
use oxibus.Auth.Client.{ClientAction, System, answer_challenge}
use oxibus.Auth.Client.Handshake.{IsHexDigit, IsBytes, IsHex, answer_challenge-accepted}
use oxibus.Auth.Mechanism.{dbus_cookie_sha1}
use oxibus.Auth.Server.{Key, waiting_for_data, hex_key, expected_hash, is_empty}
use oxibus.Base.{
  ℕ, ◌<◌, ◌≡◌, ◌⊎◌, refl, true, Option, none, some, List, [], ◌∷◌, ◌++◌, Text, codes, any, ◌==◌,
  if◌then◌else◌, arith,
}
use oxibus.Base.Decimal.{decimal}
use oxibus.Core.Types.Int.{ℤ}
use oxibus.Transport.{PeerCredentials}
use oxibus.Auth.Mechanism
use oxibus.Auth.Mechanism.{Mechanism, external, anonymous}
use oxibus.Base.Strs.{split_once, trim_after, white_space}
use oxibus.Auth.Lines.{split_command}
use oxibus.Auth.Server.{
  Crates, Moment, begin, ServerAuth, new, ok, rejected, feed_line, handle_waiting_for_auth,
  handle_waiting_for_begin, handle_auth, reject_if, or_reject, start_mechanism,
  dispatch_mechanism_data, handle_anonymous,
}
use oxibus.Auth.Server.Handlers.{StaysWithin, counted}
use oxibus.Auth.Server.Session.{Session, started, went_on, feed_line-begin, feed_line-counted}
use oxibus.Auth.Server.External.{feed_line-external}

abbrev alice : PeerCredentials
alice = record { uid = 1000; gid = 100; pid = ℤ.pos 7 }

-- Crates that leave every text as it is.
abbrev plain : Crates
plain = record { hex_encode = λ s. s; hex_decode = λ s. some s; sha1 = λ s. s }

abbrev moment : Moment
moment = record {
  load = λ home. none;
  best_key = λ keys. none;
  challenge_raw = [];
  current_uid = 0;
}

abbrev mechanisms : List Mechanism
mechanisms = external ∷ anonymous ∷ []

abbrev fresh : ServerAuth
unfolding new
fresh = new alice mechanisms true (codes "00") none

feed_line-external_example :
    feed_line plain moment (codes "AUTH EXTERNAL " ++ decimal 1000) fresh
    ≡ (if 1000 == 1000 then ok (some 1000) fresh else rejected fresh)
unfolding fresh new
feed_line-external_example = feed_line-external plain moment fresh 1000 refl refl (omega arith) refl

abbrev anonymous_line : Text
anonymous_line = codes "AUTH ANONYMOUS 00"

abbrev nobody : Option ℕ
nobody = none

abbrev accepted : ServerAuth
unfolding fresh feed_line
accepted = (feed_line plain moment anonymous_line fresh).1

session : Session plain fresh accepted
unfolding feed_line split_command split_once trim_after white_space handle_waiting_for_auth
    handle_auth reject_if or_reject start_mechanism dispatch_mechanism_data handle_anonymous ok new
    fresh accepted
session = went_on moment anonymous_line (codes "OK 00" ∷ []) started refl

begun : (feed_line plain moment (codes "BEGIN") accepted).0 ≡ begin nobody
unfolding feed_line split_command split_once trim_after white_space handle_waiting_for_auth
    handle_auth reject_if or_reject start_mechanism dispatch_mechanism_data handle_anonymous ok new
    handle_waiting_for_begin fresh accepted
begun = refl

feed_line-begin_example :
    (nobody ≡ some 1000)
    ⊎ ((nobody ≡ none) × (true ≡ true) × (any (λ n. Mechanism.same n anonymous) mechanisms ≡ true))
unfolding fresh
feed_line-begin_example =
    feed_line-begin plain alice mechanisms true (codes "00") none accepted moment (codes "BEGIN")
      nobody session begun

feed_line-counted_example :
    (accepted.failures < 6)
    × StaysWithin
        (feed_line plain moment (codes "CANCEL") accepted).0
        (feed_line plain moment (codes "CANCEL") accepted).1
    × ((feed_line plain moment (codes "CANCEL") accepted).1.failures
        ≡ counted accepted (feed_line plain moment (codes "CANCEL") accepted).0)
unfolding fresh
feed_line-counted_example =
    feed_line-counted plain alice mechanisms true (codes "00") none accepted moment (codes "CANCEL")
      session

encode : Text → Text
encode [] = []
encode (b ∷ s) = hex_digit (b / 16) ∷ hex_digit (b % 16) ∷ encode s

push : Option ℕ → Option Text → Option Text
push (some v) (some t) = some (v ∷ t)
push (some v) none = none
push none o = none

decode : Text → Option Text
unfolding hex_val push
decode [] = some []
decode (b ∷ []) = none
decode (h ∷ l ∷ s) = push (hex_pair (hex_val h) (hex_val l)) (decode s)

-- A hexadecimal code, and a digest that is always the same.
abbrev hex_crates : Crates
hex_crates = record { hex_encode = encode; hex_decode = decode; sha1 = λ s. codes "digest" }

decode-encode : (s : Text) → IsBytes s → decode (encode s) ≡ some s
unfolding decode encode push
decode-encode [] h = refl
decode-encode (b ∷ s) (small, h) =
    ap (λ o. push (hex_pair o (hex_val (hex_digit (b % 16)))) (decode (encode s)))
      (hex_val-hex_digit (b / 16) (omega arith))
    ∙ ap (λ o. push (hex_pair (some (b / 16)) o) (decode (encode s)))
        (hex_val-hex_digit (b % 16) (omega arith))
    ∙ ap (push (some (b / 16 * 16 + b % 16))) (decode-encode s h)
    ∙ ap (λ c. some (c ∷ s)) (omega arith)

encode-digits : (s : Text) → IsBytes s → All IsHexDigit (encode s)
unfolding encode
encode-digits [] h = tt
encode-digits (b ∷ s) (small, h) =
    (digit (b / 16) (omega arith), (digit (b % 16) (omega arith), encode-digits s h))
  where
    digit : (n : ℕ) → n < 16 → IsHexDigit (hex_digit n)
    digit n less = unfold hex_digit in ground arith

hex_crates-IsHex : IsHex hex_crates
hex_crates-IsHex = record {
  decoded = decode-encode;
  digits = encode-digits;
  digest = λ s. omega arith;
}

abbrev cookies : List Key
cookies = record { id = 3; secret = codes "s" } ∷ []

abbrev challenged : ServerAuth
challenged = record fresh {
  state =
      waiting_for_data dbus_cookie_sha1
        (record { cookie_id = some 3; server_challenge_hex = some (codes "ab") });
  home_dir = some (codes "/home/alice");
}

abbrev client_system : System
client_system = record {
  current_uid = 1000;
  load = λ home context. inr cookies;
  challenge_raw = codes "c";
}

abbrev with_cookies : Moment
with_cookies = record moment { load = λ home. some cookies }

found : hex_key hex_crates 3 cookies ≡ some (encode (codes "s"))
unfolding hex_key
found = refl

first_filled : is_empty (encode (codes "c")) ≡ false
unfolding encode
first_filled = refl

second_filled :
    is_empty (expected_hash hex_crates (codes "ab") (encode (codes "c")) (encode (codes "s")))
    ≡ false
unfolding expected_hash encode
second_filled = refl

answer_challenge-accepted_example :
    (line : Text) × ((answer_challenge hex_crates client_system
        (codes "ab")
        3
        cookies
        (Client.new mechanisms false none)).0
      ≡ ClientAction.send line)
    × (feed_line hex_crates with_cookies line challenged ≡ ok (some 1000) challenged)
unfolding fresh new
answer_challenge-accepted_example =
    answer_challenge-accepted hex_crates hex_crates-IsHex with_cookies client_system challenged
      (Client.new mechanisms false none) 3 (codes "ab") (codes "/home/alice") (encode (codes "s"))
      cookies cookies refl refl refl found found (omega arith) first_filled second_filled
