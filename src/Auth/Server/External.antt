-- ===== src/Auth/Server/External.antt =====
-- The mechanism EXTERNAL of crates/oxibus-auth/src/server.rs: a peer names its user in one line.
use native.Mathlib.Nat.{pow-suc}
use oxibus.Base.{
  ℕ, zero, suc, ◌+◌, ◌*◌, ◌-◌, ◌/◌, ◌%◌, ◌^◌, ◌<◌, ◌≡◌, refl, ap, ◌∙◌, Bool, true, false, ◌&&◌,
  some, [], ◌∷◌, ◌++◌, Text, codes, all, beq, ◌==◌, leb, ltb, if◌then◌else◌, arith, Bool-cases, inl,
  inr,
}
use oxibus.Base.Decimal.{digits, decimal}
use oxibus.Core.Signature.{is_ascii}
use oxibus.Core.Utf8.{is_utf8, is_ascii-is_utf8}
use oxibus.Auth.Mechanism
use oxibus.Auth.Mechanism.{Mechanism, external}
use oxibus.Base.Strs.{parse_digits, parse_u32}
use oxibus.Auth.Server.{
  Crates, Moment, State, waiting_for_auth, waiting_for_data, default_cookie, handle_in, ServerAuth,
  rejected, ok, or_reject, reject_if, desired_uid, handle_external, dispatch_mechanism_data,
  start_mechanism, is_barred, handle_auth, handle_waiting_for_auth, feed_line,
}

abbrev is_digit : ℕ → Bool
is_digit b = leb b'0' b && leb b b'9'

all-append :
    (s t : Text) → all is_digit s ≡ true → all is_digit t ≡ true → all is_digit (s ++ t) ≡ true
all-append [] t h h' = h'
all-append (b ∷ s) t h h' = ground (arith, all-append s t)

all-digits : (f n : ℕ) → all is_digit (digits f n) ≡ true
unfolding digits
all-digits zero n = ground arith
all-digits (suc f) n =
    ground (arith, all-append (digits f (n / 10)) ((b'0' + n % 10) ∷ []), all-digits f (n / 10))

abbrev is_some_text : Text → Bool
is_some_text [] = false
is_some_text (b ∷ s) = true

is_some_text-append : (s : Text) (b : ℕ) → is_some_text (s ++ (b ∷ [])) ≡ true
is_some_text-append [] b = refl
is_some_text-append (c ∷ s) b = refl

is_some_text-digits : (f n : ℕ) → is_some_text (digits f n) ≡ true
unfolding digits
is_some_text-digits zero n = refl
is_some_text-digits (suc f) n =
    ground (arith, is_some_text-append (digits f (n / 10)) (b'0' + n % 10))

parse_digits-append :
    (acc v b : ℕ) (s : Text)
    → parse_digits (2 ^ 32) acc s ≡ some v
    → parse_digits (2 ^ 32) acc (s ++ (b ∷ [])) ≡ parse_digits (2 ^ 32) v (b ∷ [])
unfolding parse_digits
parse_digits-append acc v b [] h = ap (λ w. parse_digits (2 ^ 32) w (b ∷ [])) (some_eq acc v h)
  where
    some_eq : (x y : ℕ) → some x ≡ some y → x ≡ y
    some_eq x y p = cc
parse_digits-append acc v b (c ∷ s) h =
    ground (arith, parse_digits-append (acc * 10 + (c - b'0')) v b s)

parse_digits-last :
    (q d : ℕ)
    → d < 10
    → q * 10 + d < 2 ^ 32
    → parse_digits (2 ^ 32) q ((b'0' + d) ∷ []) ≡ some (q * 10 + d)
unfolding parse_digits
parse_digits-last q d h h' = ground arith

parse_digits-digits :
    (f n : ℕ) → n < 10 ^ suc f → n < 2 ^ 32 → parse_digits (2 ^ 32) 0 (digits f n) ≡ some n
unfolding digits
parse_digits-digits zero n h h' =
    parse_digits-last 0 (n % 10) (omega arith) (omega arith) ∙ ap some (omega arith)
parse_digits-digits (suc f) n h h' = elim (Bool-cases (ltb n 10)) [
  | inl small ↦
      rw small (parse_digits-last 0 n (ground arith) (omega arith) ∙ ap some (omega arith))
  | inr large ↦ rw large (
      parse_digits-append 0 (n / 10) (b'0' + n % 10) (digits f (n / 10))
        (parse_digits-digits f (n / 10) (omega (arith, pow-suc 10 (suc f))) (omega arith))
      ∙ parse_digits-last (n / 10) (n % 10) (omega arith) (omega arith)
      ∙ ap some (omega arith))
]

is_ascii-digits : (s : Text) → all is_digit s ≡ true → is_ascii s ≡ true
unfolding is_ascii
is_ascii-digits [] h = refl
is_ascii-digits (b ∷ s) h = ground (arith, is_ascii-digits s)

parse_u32-digits :
    (s : Text)
    → is_some_text s ≡ true
    → all is_digit s ≡ true
    → parse_u32 s ≡ parse_digits (2 ^ 32) 0 s
unfolding parse_u32
parse_u32-digits [] h h' = cc
parse_u32-digits (b ∷ []) h h' = ground arith
parse_u32-digits (b ∷ c ∷ s) h h' = ground arith

parse_u32-decimal : (n : ℕ) → n < 2 ^ 32 → parse_u32 (decimal n) ≡ some n
unfolding decimal
parse_u32-decimal n h =
    parse_u32-digits (digits 19 n) (is_some_text-digits 19 n) (all-digits 19 n)
    ∙ parse_digits-digits 19 n (omega arith) h

desired_uid-some_text :
    (a : ServerAuth) (s : Text)
    → is_some_text s ≡ true
    → is_utf8 s ≡ true
    → desired_uid a s ≡ parse_u32 s
unfolding desired_uid
desired_uid-some_text a [] h h' = cc
desired_uid-some_text a (b ∷ s) h h' = rw h' refl

desired_uid-decimal : (a : ServerAuth) (n : ℕ) → n < 2 ^ 32 → desired_uid a (decimal n) ≡ some n
unfolding decimal
desired_uid-decimal a n h =
    desired_uid-some_text a (digits 19 n) (is_some_text-digits 19 n)
      (is_ascii-is_utf8 (digits 19 n) (is_ascii-digits (digits 19 n) (all-digits 19 n)))
    ∙ parse_u32-decimal n h

handle_external-decimal :
    (a : ServerAuth) (s : State) (uid : ℕ)
    → uid < 2 ^ 32
    → handle_external (decimal uid) (record a { state = s })
      ≡ (if uid == a.peer.uid then ok (some a.peer.uid) a else rejected a)
unfolding handle_external ok rejected
handle_external-decimal a s uid small =
    rw (desired_uid-decimal (record a { state = s }) uid small) refl

start_mechanism-external :
    (crates : Crates) (moment : Moment) (a : ServerAuth) (uid : ℕ)
    → uid < 2 ^ 32
    → crates.hex_decode (crates.hex_encode (decimal uid)) ≡ some (decimal uid)
    → start_mechanism crates moment (some (crates.hex_encode (decimal uid))) external a
      ≡ (if uid == a.peer.uid then ok (some a.peer.uid) a else rejected a)
unfolding start_mechanism or_reject dispatch_mechanism_data
start_mechanism-external crates moment a uid small hex =
    rw hex (handle_external-decimal a (waiting_for_data external default_cookie) uid small)

handle_auth-external :
    (crates : Crates) (moment : Moment) (a : ServerAuth) (s : Text)
    → is_barred a external ≡ false
    → handle_auth crates moment (codes "EXTERNAL " ++ s) a
      ≡ start_mechanism crates moment (some s) external a
unfolding handle_auth or_reject reject_if Mechanism.parse beq
handle_auth-external crates moment a s allowed = rw allowed refl

-- In the state that expects `AUTH`, a peer that sends `AUTH EXTERNAL` and a 32-bit user, in decimal
-- and then in hexadecimal, is accepted with `OK` as this user if the kernel names the same one for
-- the socket, and is rejected otherwise. The mechanism is allowed, and the crate `hex` reads back
-- what it has encoded.
pub feed_line-external :
    (crates : Crates) (moment : Moment) (a : ServerAuth) (uid : ℕ)
    → a.state ≡ waiting_for_auth
    → is_barred a external ≡ false
    → uid < 2 ^ 32
    → crates.hex_decode (crates.hex_encode (decimal uid)) ≡ some (decimal uid)
    → feed_line crates moment (codes "AUTH EXTERNAL " ++ crates.hex_encode (decimal uid)) a
      ≡ (if uid == a.peer.uid then ok (some a.peer.uid) a else rejected a)
unfolding feed_line handle_waiting_for_auth beq
feed_line-external crates moment a uid here allowed small hex =
    ap
      (λ s.
        handle_in crates moment s (codes "AUTH")
          (codes "EXTERNAL " ++ crates.hex_encode (decimal uid)) a)
      here
    ∙ handle_auth-external crates moment a (crates.hex_encode (decimal uid)) allowed
    ∙ start_mechanism-external crates moment a uid small hex
