-- ===== src/Auth/Mechanism.antt =====
-- crates/oxibus-auth/src/mechanism.rs: the names of the mechanisms.
use oxibus.Base.{
  Bool, true, false, ◌≡◌, refl, Option, none, some, List, [], ◌∷◌, ◌++◌, Text, codes, beq,
  if◌then◌else◌,
}

pub data Mechanism : Type 0 where
  external : Mechanism
  dbus_cookie_sha1 : Mechanism
  anonymous : Mechanism

unfoldable pub name : Mechanism → Text
name external = codes "EXTERNAL"
name dbus_cookie_sha1 = codes "DBUS_COOKIE_SHA1"
name anonymous = codes "ANONYMOUS"

unfoldable pub parse : Text → Option Mechanism
unfolding beq
parse s =
    if beq s (codes "EXTERNAL")
    then some external
    else if beq s (codes "DBUS_COOKIE_SHA1")
    then some dbus_cookie_sha1
    else if beq s (codes "ANONYMOUS")
    then some anonymous
    else none

-- `join(" ")` of the names.
unfoldable pub mechanism_list_string : List Mechanism → Text
unfolding name
mechanism_list_string [] = []
mechanism_list_string (m ∷ []) = name m
mechanism_list_string (m ∷ n ∷ ms) = name m ++ codes " " ++ mechanism_list_string (n ∷ ms)

-- The derived `==`.
abbrev pub same : Mechanism → Mechanism → Bool
same external external = true
same dbus_cookie_sha1 dbus_cookie_sha1 = true
same anonymous anonymous = true
same external dbus_cookie_sha1 = false
same external anonymous = false
same dbus_cookie_sha1 external = false
same dbus_cookie_sha1 anonymous = false
same anonymous external = false
same anonymous dbus_cookie_sha1 = false

-- Every mechanism is read back from its name.
pub parse-name : (m : Mechanism) → parse (name m) ≡ some m
unfolding parse name beq
parse-name external = refl
parse-name dbus_cookie_sha1 = refl
parse-name anonymous = refl
