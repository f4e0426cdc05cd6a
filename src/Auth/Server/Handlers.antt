-- ===== src/Auth/Server/Handlers.antt =====
-- The handlers of crates/oxibus-auth/src/server.rs keep the handshake safe.
use oxibus.Base.{
  ℕ, ◌<◌, ◌≡◌, refl, ◌⊎◌, inl, inr, Bool, true, false, ◌+◌, [], ◌∷◌, ◌==◌, if◌then◌else◌, Option,
  none, some, Text, arith, Bool-cases,
}
use oxibus.Auth.Mechanism.{Mechanism, external, dbus_cookie_sha1, anonymous}
use oxibus.Auth.Server.{
  Crates, Moment, CookieState, State, waiting_for_auth, waiting_for_data, waiting_for_begin,
  ServerAction, send, begin, disconnect, ServerAuth, Answer, rejected, ok, error, or_reject,
  reject_if, handle_external, handle_anonymous, handle_cookie_sha1, cookie_sha1_first_response,
  cookie_sha1_second_response, dispatch_mechanism_data, is_barred, is_uid, desired_uid,
}

-- A mechanism that the server may use.
abbrev pub IsAllowed : ServerAuth → Mechanism → Type 0
IsAllowed a m = is_barred a m ≡ false

-- A user that the handshake may end with: the peer's own, or nobody where that is allowed.
abbrev pub IsGrantable : ServerAuth → Option ℕ → Type 0
IsGrantable a uid = (uid ≡ some a.peer.uid) ⊎ ((uid ≡ none) × IsAllowed a anonymous)

abbrev pub IsSafeState : ServerAuth → State → Type 0
IsSafeState a waiting_for_auth = Unit {0}
IsSafeState a (waiting_for_data m cookie) = IsAllowed a m
IsSafeState a (waiting_for_begin uid) = IsGrantable a uid

-- What stays as it is from line to line.
pub record SameAccount (a b : ServerAuth) : Type 0 where
  pub peer : b.peer ≡ a.peer
  pub mechanisms : b.allowed_mechanisms ≡ a.allowed_mechanisms
  pub anonymity : b.allow_anonymous ≡ a.allow_anonymous

-- `BEGIN` is answered only with a user that may be granted.
abbrev pub GrantsSafely : ServerAuth → ServerAction → Type 0
GrantsSafely a (send lines) = Unit {0}
GrantsSafely a (begin uid) = IsGrantable a uid
GrantsSafely a (disconnect reason) = Unit {0}

-- The handshake goes on only with fewer failures than the limit.
abbrev pub StaysWithin : ServerAction → ServerAuth → Type 0
StaysWithin (send lines) a = a.failures < 6
StaysWithin (begin uid) a = a.failures < 6
StaysWithin (disconnect reason) a = a.failures ≡ 6

abbrev starts_rejected : Text → Bool
starts_rejected [] = false
starts_rejected (b ∷ s) = b == b'R'

-- `REJECTED`, the only line that starts with `R`, or the disconnection.
abbrev pub is_rejection : ServerAction → Bool
is_rejection (send []) = false
is_rejection (send (line ∷ lines)) = starts_rejected line
is_rejection (begin uid) = false
is_rejection (disconnect reason) = true

-- The failures after a line that was handled in the state `a`.
abbrev pub counted : ServerAuth → ServerAction → ℕ
counted a action = if is_rejection action then a.failures + 1 else a.failures

pub record IsSound (a : ServerAuth) (out : Answer) : Type 0 where
  pub account : SameAccount a out.1
  pub state : IsSafeState a out.1.state
  pub grant : GrantsSafely a out.0
  pub within : StaysWithin out.0 out.1
  pub count : out.1.failures ≡ counted a out.0

pub same_account : (a : ServerAuth) → SameAccount a a
same_account a = record { peer = refl; mechanisms = refl; anonymity = refl }

module _ (a : ServerAuth) (few : a.failures < 6) where
  pub rejected-IsSound : IsSound a (rejected a)
  unfolding rejected
  rejected-IsSound = record {
    account = record { peer = refl; mechanisms = refl; anonymity = refl };
    state = tt;
    grant = ground arith;
    within = ground arith;
    count = ground arith;
  }

  pub ok-IsSound : (uid : Option ℕ) → IsGrantable a uid → IsSound a (ok uid a)
  unfolding ok
  ok-IsSound uid g = record {
    account = record { peer = refl; mechanisms = refl; anonymity = refl };
    state = g;
    grant = tt;
    within = few;
    count = refl;
  }

  pub error-IsSound : (msg : Text) → IsSafeState a a.state → IsSound a (error msg a)
  unfolding error
  error-IsSound msg safe = record {
    account = same_account a;
    state = safe;
    grant = tt;
    within = few;
    count = refl;
  }

  pub or_reject-IsSound {ℓ} :
      {A : Type ℓ} (o : Option A) (k : A → Answer)
      → ((x : A) → IsSound a (k x))
      → IsSound a (or_reject a o k)
  unfolding or_reject
  or_reject-IsSound none k h = rejected-IsSound
  or_reject-IsSound (some x) k h = h x

  pub reject_if-IsSound :
      (t : Bool) (k : Answer) → (t ≡ false → IsSound a k) → IsSound a (reject_if a t k)
  unfolding reject_if
  reject_if-IsSound true k h = rejected-IsSound
  reject_if-IsSound false k h = h refl

  external-IsSound : (data' : Text) → IsSound a (handle_external data' a)
  unfolding handle_external
  external-IsSound data' = elim (Bool-cases (is_uid a.peer.uid (desired_uid a data'))) [
    | inl self ↦ rw self (ok-IsSound (some a.peer.uid) (inl refl))
    | inr other ↦ rw other rejected-IsSound
  ]

  second_response-IsSound :
      (crates : Crates) (moment : Moment) (id : ℕ) (cookie : CookieState) (text : Text)
      → IsSound a (cookie_sha1_second_response crates moment id cookie text a)
  unfolding cookie_sha1_second_response
  second_response-IsSound crates moment id cookie text = reject_if-IsSound _ _ λ h1.
      or_reject-IsSound _ _ λ (challenge, hash). reject_if-IsSound _ _ λ h2.
        or_reject-IsSound _ _ λ home. or_reject-IsSound _ _ λ keyring.
          or_reject-IsSound _ _
            λ cookie_hex. reject_if-IsSound _ _ λ h3. ok-IsSound (some a.peer.uid) (inl refl)

  first_response-IsSound :
      (crates : Crates) (moment : Moment) (data' : Text)
      → IsAllowed a dbus_cookie_sha1
      → IsSound a (cookie_sha1_first_response crates moment data' a)
  unfolding cookie_sha1_first_response
  first_response-IsSound crates moment data' allowed = reject_if-IsSound _ _ λ self.
      or_reject-IsSound _ _ λ home. or_reject-IsSound _ _ λ keyring.
        or_reject-IsSound _ _ λ cookie_id. record {
          account = record { peer = refl; mechanisms = refl; anonymity = refl };
          state = allowed;
          grant = tt;
          within = few;
          count = refl;
        }

  cookie-IsSound :
      (crates : Crates) (moment : Moment) (cookie : CookieState) (data' : Text)
      → IsAllowed a dbus_cookie_sha1
      → IsSound a (handle_cookie_sha1 crates moment cookie data' a)
  unfolding handle_cookie_sha1
  cookie-IsSound crates moment cookie data' allowed = by_id cookie.cookie_id
    where
      by_id :
          (id : Option ℕ)
          → IsSound a (elim id [
            | none ↦ cookie_sha1_first_response crates moment data' a
            | some n ↦ cookie_sha1_second_response crates moment n cookie data' a
          ])
      by_id none = first_response-IsSound crates moment data' allowed
      by_id (some n) = second_response-IsSound crates moment n cookie data'

  pub dispatch-IsSound :
      (crates : Crates) (moment : Moment) (m : Mechanism) (cookie : CookieState) (data' : Text)
      → IsAllowed a m
      → IsSound a (dispatch_mechanism_data crates moment m cookie data' a)
  unfolding dispatch_mechanism_data handle_anonymous
  dispatch-IsSound crates moment external cookie data' allowed = external-IsSound data'
  dispatch-IsSound crates moment dbus_cookie_sha1 cookie data' allowed =
      cookie-IsSound crates moment cookie data' allowed
  dispatch-IsSound crates moment anonymous cookie data' allowed =
      ok-IsSound none (inr (refl, allowed))

-- The state in which a mechanism is asked for its data is no more than a step.
pub asked-IsSound :
    (a : ServerAuth) (s : State) (out : Answer)
    → IsSound (record a { state = s }) out
    → IsSound a out
asked-IsSound a s out h = record {
  account = record {
    peer = h.account.peer;
    mechanisms = h.account.mechanisms;
    anonymity = h.account.anonymity;
  };
  state = on_state out.1.state h.state;
  grant = on_action out.0 h.grant;
  within = h.within;
  count = h.count;
}
  where
    on_state : (t : State) → IsSafeState (record a { state = s }) t → IsSafeState a t
    on_state waiting_for_auth g = g
    on_state (waiting_for_data m c) g = g
    on_state (waiting_for_begin uid) g = g

    on_action : (t : ServerAction) → GrantsSafely (record a { state = s }) t → GrantsSafely a t
    on_action (send lines) g = g
    on_action (begin uid) g = g
    on_action (disconnect reason) g = g
