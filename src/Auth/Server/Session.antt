-- ===== src/Auth/Server/Session.antt =====
-- What the handshake of crates/oxibus-auth/src/server.rs grants, over every sequence of lines.
use mathlib.Core.Path.{subst}
use oxibus.Base.{
  ℕ, ◌<◌, ◌≡◌, sym, ◌∙◌, ◌⊎◌, inl, inr, Bool, true, Option, none, some, List, Text, any, arith,
}
use oxibus.Auth.Mechanism
use oxibus.Auth.Mechanism.{Mechanism, external, dbus_cookie_sha1, anonymous}
use oxibus.Transport.{PeerCredentials}
use oxibus.Auth.Server.{
  Crates, Moment, State, waiting_for_auth, waiting_for_data, waiting_for_begin, ServerAction, send,
  begin, disconnect, ServerAuth, new, feed_line,
}
use oxibus.Auth.Server.Handlers.{
  IsAllowed, IsGrantable, IsSafeState, GrantsSafely, StaysWithin, counted, SameAccount, IsSound,
  same_account,
}
use oxibus.Auth.Server.Sound.{feed_line-IsSound}

-- The state after a line that is answered with text.
pub data Session (crates : Crates) (fresh : ServerAuth) : ServerAuth → Type 0 where
  started : Session crates fresh fresh
  went_on :
      {a : ServerAuth} (moment : Moment) (line : Text) (lines : List Text)
      → Session crates fresh a
      → (feed_line crates moment line a).0 ≡ send lines
      → Session crates fresh (feed_line crates moment line a).1

pub record IsSafe (fresh a : ServerAuth) : Type 0 where
  pub account : SameAccount fresh a
  pub state : IsSafeState a a.state
  pub few : a.failures < 6

-- The safety of a state does not depend on anything but the account.
move-IsAllowed :
    (a b : ServerAuth) → SameAccount a b → (m : Mechanism) → IsAllowed a m → IsAllowed b m
move-IsAllowed a b same m h = rw (same.mechanisms, same.anonymity) h

move_grant :
    (a b : ServerAuth) → SameAccount a b → (uid : Option ℕ) → IsGrantable a uid → IsGrantable b uid
move_grant a b same uid (inl own) = inl (rw same.peer own)
move_grant a b same uid (inr (nobody, allowed)) =
    inr (nobody, move-IsAllowed a b same anonymous allowed)

move_state : (a b : ServerAuth) → SameAccount a b → (s : State) → IsSafeState a s → IsSafeState b s
move_state a b same waiting_for_auth h = tt
move_state a b same (waiting_for_data m c) h = move-IsAllowed a b same m h
move_state a b same (waiting_for_begin uid) h = move_grant a b same uid h

back : {a b : ServerAuth} → SameAccount a b → SameAccount b a
back s = record { peer = sym s.peer; mechanisms = sym s.mechanisms; anonymity = sym s.anonymity }

on : {a b c : ServerAuth} → SameAccount a b → SameAccount b c → SameAccount a c
on s t = record {
  peer = t.peer ∙ s.peer;
  mechanisms = t.mechanisms ∙ s.mechanisms;
  anonymity = t.anonymity ∙ s.anonymity;
}

stays_open :
    (t : ServerAction) (lines : List Text) (a : ServerAuth)
    → t ≡ send lines
    → StaysWithin t a
    → a.failures < 6
stays_open (send l) lines a e h = h
stays_open (begin uid) lines a e h = h
stays_open (disconnect reason) lines a e h = cc

Session-IsSafe :
    {crates : Crates} {fresh a : ServerAuth}
    → IsSafe fresh fresh
    → Session crates fresh a
    → IsSafe fresh a
Session-IsSafe h started = h
Session-IsSafe {crates} {fresh} h (went_on {a} moment line lines run e) =
    let safe : IsSafe fresh a = Session-IsSafe h run in
    let sound : IsSound a (feed_line crates moment line a) =
      feed_line-IsSound crates moment a safe.few line safe.state in
    record {
      account = on safe.account sound.account;
      state =
          move_state a (feed_line crates moment line a).1 sound.account
            (feed_line crates moment line a).1.state sound.state;
      few =
          stays_open (feed_line crates moment line a).0 lines (feed_line crates moment line a).1 e
            sound.within;
    }

new-IsSafe :
    (peer : PeerCredentials) (ms : List Mechanism) (anon : Bool) (guid : Text) (home : Option Text)
    → IsSafe (new peer ms anon guid home) (new peer ms anon guid home)
unfolding new
new-IsSafe peer ms anon guid home = record {
  account = same_account (new peer ms anon guid home);
  state = tt;
  few = omega arith;
}

granted :
    (t : ServerAction) (uid : Option ℕ) (a : ServerAuth)
    → t ≡ begin uid
    → GrantsSafely a t
    → IsGrantable a uid
granted (send lines) uid a e h = cc
granted (begin u) uid a e h = subst (IsGrantable a) (begin_eq u uid e) h
  where
    begin_eq : (x y : Option ℕ) → begin x ≡ begin y → x ≡ y
    begin_eq x y p = cc
granted (disconnect r) uid a e h = cc

permitted :
    (a : ServerAuth)
    → IsAllowed a anonymous
    → (a.allow_anonymous ≡ true)
      × (any (λ n. Mechanism.same n anonymous) a.allowed_mechanisms ≡ true)
permitted a h = (ground arith, ground arith)

-- Whatever lines a peer sends after `ServerAuth::new`, as long as they are answered with text, the
-- handshake ends (`BEGIN`) only as the user that the kernel names for the socket, or as nobody,
-- and this only if the server allows anonymous peers and lists the mechanism.
pub feed_line-begin :
    (crates : Crates) (peer : PeerCredentials) (ms : List Mechanism) (anon : Bool) (guid : Text)
    (home : Option Text) (a : ServerAuth) (moment : Moment) (line : Text) (uid : Option ℕ)
    → Session crates (new peer ms anon guid home) a
    → (feed_line crates moment line a).0 ≡ begin uid
    → (uid ≡ some peer.uid)
      ⊎ ((uid ≡ none) × (anon ≡ true) × (any (λ n. Mechanism.same n anonymous) ms ≡ true))
unfolding new
feed_line-begin crates peer ms anon guid home a moment line uid run e =
    let fresh = new peer ms anon guid home in
    let safe : IsSafe fresh a = Session-IsSafe (new-IsSafe peer ms anon guid home) run in
    let sound : IsSound a (feed_line crates moment line a) =
      feed_line-IsSound crates moment a safe.few line safe.state in
    elim (move_grant a fresh (back safe.account) uid
      (granted (feed_line crates moment line a).0 uid a e sound.grant)) [
        | inl own ↦ inl own
        | inr (nobody, allowed) ↦
            inr (nobody, (permitted fresh allowed).0, (permitted fresh allowed).1)
      ]

-- Over every sequence of lines that were answered with text, a line is counted as a failure
-- exactly if it is answered with `REJECTED` or a disconnection, and the peer is disconnected at
-- its sixth failure and never before.
pub feed_line-counted :
    (crates : Crates) (peer : PeerCredentials) (ms : List Mechanism) (anon : Bool) (guid : Text)
    (home : Option Text) (a : ServerAuth) (moment : Moment) (line : Text)
    → Session crates (new peer ms anon guid home) a
    → (a.failures < 6)
      × StaysWithin (feed_line crates moment line a).0 (feed_line crates moment line a).1
      × ((feed_line crates moment line a).1.failures ≡ counted a (feed_line crates moment line a).0)
feed_line-counted crates peer ms anon guid home a moment line run =
    let fresh = new peer ms anon guid home in
    let safe : IsSafe fresh a = Session-IsSafe (new-IsSafe peer ms anon guid home) run in
    let sound : IsSound a (feed_line crates moment line a) =
      feed_line-IsSound crates moment a safe.few line safe.state in
    (safe.few, sound.within, sound.count)
