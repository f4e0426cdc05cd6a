-- ===== src/Daemon/Driver/Arms.antt =====
-- The case split over the methods of `handle` in crates/oxibus-daemon/src/driver.rs.
use oxibus.Base.{[], Text, codes, beq, Bool-cases, inl, inr}
use oxibus.Core.Types.{Value, Values}
use oxibus.Daemon.Bus.{Bus, World}
use oxibus.Daemon.Driver.{
  DriverOutcome, answer, refuse, with_name, handle_hello, handle_request_name, handle_release_name,
  handle_get_name_owner, handle_start_service, handle_add_match, handle_remove_match,
}
use oxibus.Daemon.Driver.Queries.{
  about_connection, handle_update_activation_env, name_has_owner_answer,
}
use oxibus.Daemon.Driver.Arguments.{DriverError}
use oxibus.Daemon.Driver.Calls.{handle}
use oxibus.Daemon.Registry.{ConnectionEntry}

-- What holds of every method, and of every answer that leaves the bus as it is, holds of `handle`.
pub handle_ind :
    (D : DriverOutcome × Bus → Type 0) (world : World) (caller : ConnectionEntry) (member : Text)
    (args : Values) (bus : Bus)
    → ((values : Values) → D (answer values [], bus))
    → ((e : DriverError) → D (refuse e, bus))
    → D (handle_hello caller bus)
    → D (handle_request_name world caller args bus)
    → D (handle_release_name caller args bus)
    → D (name_has_owner_answer args bus, bus)
    → D (handle_get_name_owner args bus)
    → ((k : Text → Values) → D (with_name args bus (λ name. (answer (k name) [], bus))))
    → D (handle_start_service world args bus)
    → D (handle_add_match caller args bus)
    → D (handle_remove_match caller args bus)
    → ((tell : ConnectionEntry → Value) → D (about_connection tell args bus))
    → D (handle_update_activation_env args bus)
    → D (handle world caller member args bus)
unfolding handle
handle_ind D world caller member args bus answered refused hello request release has_owner owner
      queued start added removed about environment =
    elim (Bool-cases (beq member (codes "Hello"))) [
      | inl h ↦ rw h (hello)
      | inr h ↦ rw h (elim (Bool-cases (beq member (codes "RequestName"))) [
        | inl h ↦ rw h (request)
        | inr h ↦ rw h (elim (Bool-cases (beq member (codes "ReleaseName"))) [
          | inl h ↦ rw h (release)
          | inr h ↦ rw h (elim (Bool-cases (beq member (codes "ListNames"))) [
            | inl h ↦ rw h (answered _)
            | inr h ↦ rw h (elim (Bool-cases (beq member (codes "ListActivatableNames"))) [
              | inl h ↦ rw h (answered _)
              | inr h ↦ rw h (elim (Bool-cases (beq member (codes "NameHasOwner"))) [
                | inl h ↦ rw h (has_owner)
                | inr h ↦ rw h (elim (Bool-cases (beq member (codes "GetNameOwner"))) [
                  | inl h ↦ rw h (owner)
                  | inr h ↦ rw h (elim (Bool-cases (beq member (codes "ListQueuedOwners"))) [
                    | inl h ↦ rw h (queued _)
                    | inr h ↦ rw h (elim (Bool-cases (beq member (codes "StartServiceByName"))) [
                      | inl h ↦ rw h (start)
                      | inr h ↦ rw h (elim (Bool-cases (beq member (codes "AddMatch"))) [
                        | inl h ↦ rw h (added)
                        | inr h ↦ rw h (elim (Bool-cases (beq member (codes "RemoveMatch"))) [
                          | inl h ↦ rw h (removed)
                          | inr h ↦
                              rw h (elim (Bool-cases (beq member (codes "GetConnectionUnixUser"))) [
                                | inl h ↦ rw h (about _)
                                | inr h ↦
                                    rw h
                                      (elim (Bool-cases
                                        (beq member (codes "GetConnectionUnixProcessID"))) [
                                          | inl h ↦ rw h (about _)
                                          | inr h ↦
                                              rw h
                                                (elim (Bool-cases
                                                  (beq member (codes "GetConnectionCredentials"))) [
                                                    | inl h ↦ rw h (about _)
                                                    | inr h ↦
                                                        rw h
                                                          (elim (Bool-cases
                                                            (beq member (codes "GetId"))) [
                                                              | inl h ↦ rw h (answered _)
                                                              | inr h ↦
                                                                rw h
                                                                (elim (Bool-cases (
                                                                beq member (
                                                                codes
                                                                "UpdateActivationEnvironment"))) [
                                                                  | inl h ↦ rw h (environment)
                                                                  | inr h ↦
                                                                    rw h
                                                                    (elim (Bool-cases (
                                                                    beq member
                                                                    (codes "ReloadConfig"))) [
                                                                      | inl h ↦ rw h (answered _)
                                                                      | inr h ↦ rw h (refused _)
                                                                    ])
                                                                ])
                                                            ])
                                                  ])
                                        ])
                              ])
                        ])
                      ])
                    ])
                  ])
                ])
              ])
            ])
          ])
        ])
      ])
    ]
