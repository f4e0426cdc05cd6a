-- ===== src/Daemon/Dispatch/Written.antt =====
-- What dispatch.rs writes: the log of a step extends the log before it.
use oxibus.Base.{◌≡◌, refl, Bool, true, false, List, ◌∷◌, Text, if_ind}
use oxibus.Core.Message.{Message, no_reply_expected}
use oxibus.Daemon.Bus.{Bus, World, Sent, add_if, write}
use oxibus.Daemon.Dispatch.{reply_error, write_built}
use oxibus.Daemon.Registry.{ConnectionEntry}

-- What was written since has the property.
pub data Extends (P : Sent → Type 0) (old : List Sent) : List Sent → Type 0 where
  same : Extends P old old
  added : {s : Sent} {sent : List Sent} → P s → Extends P old sent → Extends P old (s ∷ sent)

pub Extends-map :
    {P Q : Sent → Type 0} {old new : List Sent}
    → ((s : Sent) → P s → Q s)
    → Extends P old new
    → Extends Q old new
Extends-map f same = same
Extends-map f (added {s} p e) = added (f s p) (Extends-map f e)

pub Extends-trans :
    {P : Sent → Type 0} {a b c : List Sent} → Extends P a b → Extends P b c → Extends P a c
Extends-trans e same = e
Extends-trans e (added p e') = added p (Extends-trans e e')

pub added_if :
    {P : Sent → Type 0} {old sent : List Sent} (b : Bool) (s : Sent)
    → P s
    → Extends P old sent
    → Extends P old (add_if b s sent)
added_if true s p e = added p e
added_if false s p e = e

-- An error goes to the caller alone.
pub reply_error-Extends :
    (P : Sent → Type 0) (world : World) (caller : ConnectionEntry) (call : Message)
    (name text : Text) (bus : Bus)
    → ((s : Sent) → s.to ≡ caller.unique_name → P s)
    → Extends P bus.sent (reply_error world caller call name text bus).sent
unfolding reply_error write_built write
reply_error-Extends P world caller call name text bus h =
    if_ind (λ (b : Bus). Extends P bus.sent b.sent) (no_reply_expected call) bus _ (λ _. same)
      (λ _. added_if _ _ (h _ refl) same)

pub reply_error-registry :
    (world : World) (caller : ConnectionEntry) (call : Message) (name text : Text) (bus : Bus)
    → (reply_error world caller call name text bus).registry ≡ bus.registry
unfolding reply_error write_built write
reply_error-registry world caller call name text bus =
    if_ind (λ (b : Bus). b.registry ≡ bus.registry) (no_reply_expected call) bus _ (λ _. refl)
      (λ _. refl)
