-- ===== src/Core/Message/Replies.antt =====
-- The messages that crates/oxibus-core/src/message.rs builds.
use oxibus.Base.{
  ℕ, ◌^◌, ◌<◌, ◌≡◌, ◌≢◌, refl, Bool, Option, none, some, Text, ok, fail_if, ◌==◌, arith, Bool-cases,
  inl, inr,
}
use oxibus.Core.Header.{MessageHeader}
use oxibus.Core.Header.Access
use oxibus.Core.Header.Access.{validate, validate_as}
use oxibus.Core.Message.{Message, next_serial, method_return, error, build, reply_to, address_to}

-- A serial is never 0, and the counter stays a number of 32 bits.
pub next_serial_bound :
    (v : ℕ)
    → v < 2 ^ 32
    → ((next_serial v).0 ≢ 0) × ((next_serial v).0 < 2 ^ 32) × ((next_serial v).1 < 2 ^ 32)
unfolding next_serial
next_serial_bound v h = elim (Bool-cases (v == 0)) [
  | inl wrapped ↦ rw wrapped (omega arith, omega arith, omega arith)
  | inr plain ↦ rw plain (ground arith, h, omega arith)
]

-- What makes a header the answer to a call.
abbrev Answers : ℕ → Option Text → MessageHeader → Type 0
Answers serial caller h =
    (validate h ≡ ok tt) × (Access.reply_serial h ≡ some serial) × (Access.destination h ≡ caller)

address_to-method_return :
    (big_endian : Bool) (serial called : ℕ) (caller : Option Text)
    → Answers called caller
        (build serial (address_to caller (method_return big_endian called))).header
unfolding build method_return validate fail_if Access.reply_serial Access.destination
address_to-method_return big_endian serial called none = (refl, refl, refl)
address_to-method_return big_endian serial called (some s) = (refl, refl, refl)

address_to-error :
    (big_endian : Bool) (serial called : ℕ) (name : Text) (caller : Option Text)
    → Answers called caller (build serial (address_to caller (error big_endian called name))).header
unfolding build error validate fail_if Access.reply_serial Access.destination Access.error_name
address_to-error big_endian serial called name none = (refl, refl, refl)
address_to-error big_endian serial called name (some s) = (refl, refl, refl)

-- A reply, be it a return or an error, passes `validate`, names the serial of the call, and goes to
-- its sender.
pub reply_to_lem :
    (big_endian : Bool) (serial : ℕ) (call : Message) (error_name : Option Text)
    → (validate (build serial (reply_to big_endian call error_name)).header ≡ ok tt)
      × (Access.reply_serial (build serial (reply_to big_endian call error_name)).header
          ≡ some call.header.serial)
      × (Access.destination (build serial (reply_to big_endian call error_name)).header
          ≡ Access.sender call.header)
unfolding reply_to
reply_to_lem big_endian serial call none =
    address_to-method_return big_endian serial call.header.serial (Access.sender call.header)
reply_to_lem big_endian serial call (some name) =
    address_to-error big_endian serial call.header.serial name (Access.sender call.header)
