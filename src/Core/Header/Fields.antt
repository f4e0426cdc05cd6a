-- ===== src/Core/Header/Fields.antt =====
-- The fields of a header of crates/oxibus-core/src/header.rs: what is written is read back, and what
-- the accessors find.
use oxibus.Base.{◌≡◌, refl, ap, Option, none, some, List, [], ◌∷◌, ◌++◌, Text, find_map, retain, ok}
use oxibus.Core.Header.{
  MessageType, HeaderField, MessageHeader, code, to_value, from_code_and_value, to_u8, from_u8,
}
use oxibus.Core.Header.Access
use oxibus.Core.Header.Access.{set_sender, is_no_sender}
use oxibus.Core.Header.Wire.{field_values, fields_of, field_of}

-- A field is read back from its code and its value.
pub from_code_and_value-to_value :
    (f : HeaderField) → from_code_and_value (code f) (to_value f) ≡ ok (some f)
unfolding from_code_and_value code to_value
from_code_and_value-to_value (HeaderField.path p) = refl
from_code_and_value-to_value (HeaderField.interface s) = refl
from_code_and_value-to_value (HeaderField.member s) = refl
from_code_and_value-to_value (HeaderField.error_name s) = refl
from_code_and_value-to_value (HeaderField.reply_serial v) = refl
from_code_and_value-to_value (HeaderField.destination s) = refl
from_code_and_value-to_value (HeaderField.sender s) = refl
from_code_and_value-to_value (HeaderField.signature s) = refl
from_code_and_value-to_value (HeaderField.unix_fds v) = refl

pub from_u8-to_u8 : (t : MessageType) → from_u8 (to_u8 t) ≡ ok t
unfolding from_u8 to_u8
from_u8-to_u8 MessageType.method_call = refl
from_u8-to_u8 MessageType.method_return = refl
from_u8-to_u8 MessageType.error = refl
from_u8-to_u8 MessageType.signal = refl

-- The loop of `read` over the values that `write` makes of the fields gives the same fields, in the
-- same order.
pub fields_of-field_values : (fs : List HeaderField) → fields_of (field_values fs) ≡ ok fs
unfolding fields_of field_values field_of
fields_of-field_values [] = refl
fields_of-field_values (f ∷ fs) =
    rw (from_code_and_value-to_value f, fields_of-field_values fs) refl

skipped {ℓ} :
    {A : Type ℓ} (g : HeaderField → Option A) (f : HeaderField) (fs fs' : List HeaderField)
    → find_map g fs ≡ find_map g fs'
    → find_map g (f ∷ fs) ≡ find_map g (f ∷ fs')
skipped g f fs fs' h = ap (λ r. elim (g f) [ some b ↦ some b | none ↦ r ]) h

-- A search that passes over senders is not changed by a new one.
find_map-set_sender {ℓ} :
    {A : Type ℓ} (g : HeaderField → Option A) (s : Text) (fs : List HeaderField)
    → ((x : Text) → g (HeaderField.sender x) ≡ none)
    → find_map g (retain is_no_sender fs ++ (HeaderField.sender s ∷ [])) ≡ find_map g fs
find_map-set_sender g s [] h = rw (h s, find_map) refl
find_map-set_sender g s (HeaderField.sender x ∷ fs) h =
    rw (h x, find_map) (find_map-set_sender g s fs h)
find_map-set_sender g s (HeaderField.path x ∷ fs) h =
    skipped g (HeaderField.path x) _ _ (find_map-set_sender g s fs h)
find_map-set_sender g s (HeaderField.interface x ∷ fs) h =
    skipped g (HeaderField.interface x) _ _ (find_map-set_sender g s fs h)
find_map-set_sender g s (HeaderField.member x ∷ fs) h =
    skipped g (HeaderField.member x) _ _ (find_map-set_sender g s fs h)
find_map-set_sender g s (HeaderField.error_name x ∷ fs) h =
    skipped g (HeaderField.error_name x) _ _ (find_map-set_sender g s fs h)
find_map-set_sender g s (HeaderField.reply_serial x ∷ fs) h =
    skipped g (HeaderField.reply_serial x) _ _ (find_map-set_sender g s fs h)
find_map-set_sender g s (HeaderField.destination x ∷ fs) h =
    skipped g (HeaderField.destination x) _ _ (find_map-set_sender g s fs h)
find_map-set_sender g s (HeaderField.signature x ∷ fs) h =
    skipped g (HeaderField.signature x) _ _ (find_map-set_sender g s fs h)
find_map-set_sender g s (HeaderField.unix_fds x ∷ fs) h =
    skipped g (HeaderField.unix_fds x) _ _ (find_map-set_sender g s fs h)

sender_found :
    (s : Text) (fs : List HeaderField)
    → find_map
        (λ f. elim f [ HeaderField.sender x ↦ some x | _ ↦ none ])
        (retain is_no_sender fs ++ (HeaderField.sender s ∷ []))
      ≡ some s
sender_found s [] = refl
sender_found s (HeaderField.sender x ∷ fs) = sender_found s fs
sender_found s (HeaderField.path x ∷ fs) = sender_found s fs
sender_found s (HeaderField.interface x ∷ fs) = sender_found s fs
sender_found s (HeaderField.member x ∷ fs) = sender_found s fs
sender_found s (HeaderField.error_name x ∷ fs) = sender_found s fs
sender_found s (HeaderField.reply_serial x ∷ fs) = sender_found s fs
sender_found s (HeaderField.destination x ∷ fs) = sender_found s fs
sender_found s (HeaderField.signature x ∷ fs) = sender_found s fs
sender_found s (HeaderField.unix_fds x ∷ fs) = sender_found s fs

-- After `set_sender` the header names this sender, whatever sender fields it had, and the other
-- fields that the bus routes by are found as before.
pub set_sender_lem :
    (s : Text) (h : MessageHeader)
    → (Access.sender (set_sender s h) ≡ some s)
      × (Access.path (set_sender s h) ≡ Access.path h)
      × (Access.interface (set_sender s h) ≡ Access.interface h)
      × (Access.member (set_sender s h) ≡ Access.member h)
      × (Access.destination (set_sender s h) ≡ Access.destination h)
      × (Access.reply_serial (set_sender s h) ≡ Access.reply_serial h)
unfolding set_sender Access.sender Access.path Access.interface Access.member Access.destination
    Access.reply_serial
set_sender_lem s h = (
  sender_found s h.fields,
  find_map-set_sender _ s h.fields (λ x. refl),
  find_map-set_sender _ s h.fields (λ x. refl),
  find_map-set_sender _ s h.fields (λ x. refl),
  find_map-set_sender _ s h.fields (λ x. refl),
  find_map-set_sender _ s h.fields (λ x. refl),
)
