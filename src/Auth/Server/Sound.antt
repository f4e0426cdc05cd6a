-- ===== src/Auth/Server/Sound.antt =====
-- `feed_line` of crates/oxibus-auth/src/server.rs keeps the handshake safe, in every state.
use oxibus.Base.{
  ℕ, ◌<◌, refl, Bool, true, false, ◌||◌, Option, none, some, Text, codes, beq, if◌then◌else◌,
}
use oxibus.Auth.Mechanism.{Mechanism}
use oxibus.Auth.Lines.{split_command}
use oxibus.Auth.Server.{
  Crates, Moment, CookieState, default_cookie, State, waiting_for_auth, waiting_for_data,
  waiting_for_begin, ServerAuth, Answer, start_mechanism, handle_auth, handle_waiting_for_auth,
  handle_waiting_for_data, handle_waiting_for_begin, handle_in, feed_line,
}
use oxibus.Auth.Server.Handlers.{
  IsAllowed, IsGrantable, IsSafeState, IsSound, same_account, rejected-IsSound, error-IsSound,
  or_reject-IsSound, reject_if-IsSound, dispatch-IsSound, asked-IsSound,
}

module _ (crates : Crates) (moment : Moment) (a : ServerAuth) (few : a.failures < 6) where
  if-IsSound :
      (t : Bool) (x y : Answer) → IsSound a x → IsSound a y → IsSound a (if t then x else y)
  if-IsSound true x y h h' = h
  if-IsSound false x y h h' = h'

  start-IsSound :
      (m : Mechanism) (initial : Option Text)
      → IsAllowed a m
      → IsSound a (start_mechanism crates moment initial m a)
  unfolding start_mechanism
  start-IsSound m none allowed = record {
    account = record { peer = refl; mechanisms = refl; anonymity = refl };
    state = allowed;
    grant = tt;
    within = few;
    count = refl;
  }
  start-IsSound m (some hex_data) allowed = or_reject-IsSound a few _ _ λ data'.
      asked-IsSound a (waiting_for_data m default_cookie) _ (
        dispatch-IsSound (record a { state = waiting_for_data m default_cookie }) few crates moment
          m default_cookie data' allowed)

  auth-IsSound : (rest : Text) → IsSound a (handle_auth crates moment rest a)
  unfolding handle_auth
  auth-IsSound rest = reject_if-IsSound a few _ _ λ h1.
      or_reject-IsSound a few _ _
        λ m. reject_if-IsSound a few _ _ λ allowed. start-IsSound m _ allowed

  waiting_for_auth-IsSound :
      (command rest : Text)
      → IsSafeState a a.state
      → IsSound a (handle_waiting_for_auth crates moment command rest a)
  unfolding handle_waiting_for_auth
  waiting_for_auth-IsSound command rest safe =
      if-IsSound (beq command (codes "AUTH")) _ _ (auth-IsSound rest) (
        if-IsSound (beq command (codes "ERROR")) _ _ (rejected-IsSound a few)
          (error-IsSound a few _ safe))

  waiting_for_data-IsSound :
      (m : Mechanism) (cookie : CookieState) (command rest : Text)
      → IsAllowed a m
      → IsSafeState a a.state
      → IsSound a (handle_waiting_for_data crates moment m cookie command rest a)
  unfolding handle_waiting_for_data
  waiting_for_data-IsSound m cookie command rest allowed safe =
      if-IsSound (beq command (codes "DATA")) _ _
        (or_reject-IsSound a few (crates.hex_decode rest) _
          λ data'. dispatch-IsSound a few crates moment m cookie data' allowed)
        (if-IsSound (beq command (codes "CANCEL") || beq command (codes "ERROR")) _ _
          (rejected-IsSound a few)
          (if-IsSound (beq command (codes "BEGIN")) _ _ (error-IsSound a few _ safe) (
            if-IsSound (beq command (codes "AUTH")) _ _ (error-IsSound a few _ safe)
              (error-IsSound a few _ safe))))

  waiting_for_begin-IsSound :
      (uid : Option ℕ) (command : Text)
      → IsGrantable a uid
      → IsSafeState a a.state
      → IsSound a (handle_waiting_for_begin uid command a)
  unfolding handle_waiting_for_begin
  waiting_for_begin-IsSound uid command g safe =
      if-IsSound (beq command (codes "BEGIN")) _ _
        (record { account = same_account a; state = safe; grant = g; within = few; count = refl })
        (if-IsSound (beq command (codes "NEGOTIATE_UNIX_FD")) _ _
          (record {
            account = record { peer = refl; mechanisms = refl; anonymity = refl };
            state = safe;
            grant = tt;
            within = few;
            count = refl;
          })
          (if-IsSound (beq command (codes "CANCEL") || beq command (codes "ERROR")) _ _
            (rejected-IsSound a few) (error-IsSound a few _ safe)))

  handle_in-IsSound :
      (s : State) (command rest : Text)
      → IsSafeState a s
      → IsSafeState a a.state
      → IsSound a (handle_in crates moment s command rest a)
  handle_in-IsSound waiting_for_auth command rest safe here =
      waiting_for_auth-IsSound command rest here
  handle_in-IsSound (waiting_for_data m cookie) command rest safe here =
      waiting_for_data-IsSound m cookie command rest safe here
  handle_in-IsSound (waiting_for_begin uid) command rest safe here =
      waiting_for_begin-IsSound uid command safe here

  pub feed_line-IsSound :
      (line : Text) → IsSafeState a a.state → IsSound a (feed_line crates moment line a)
  unfolding feed_line
  feed_line-IsSound line safe =
      handle_in-IsSound a.state (split_command line).0 (split_command line).1 safe safe
