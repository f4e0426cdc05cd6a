-- ===== src/Daemon/Driver/Queries.antt =====
-- The methods of crates/oxibus-daemon/src/driver.rs that tell of connections, and the environment of
-- services.
use oxibus.Base.{ℕ, ◌%◌, ◌^◌, Option, none, some, [], Text, codes}
use oxibus.Base.Assoc.{Assoc, insert}
use oxibus.Core.Names.Errors
use oxibus.Core.Types.{DType, Value, Values, as_str, unwrap_variant, get_value}
use oxibus.Core.Types.Int.{pos, negsuc}
use oxibus.Daemon.Bus.{BusKind, Bus}
use oxibus.Daemon.Driver.Arguments.{driver_error, invalid_args}
use oxibus.Daemon.Registry.{ConnectionEntry, get, get_name_owner, name_has_owner}
use oxibus.Daemon.Driver.{DriverOutcome, answer, refuse, one, with_name, no_such_name}

unfoldable pub resolve_connection : Text → Bus → Option ConnectionEntry
unfolding get_name_owner get
resolve_connection name bus = elim (get_name_owner name bus.registry) [
  | none ↦ none
  | some owner ↦ get owner bus.registry
]

-- `pid.max(0) as u32`
abbrev pub pid_of : ConnectionEntry → ℕ
pid_of c = elim c.credentials.pid [ pos n ↦ n % 2 ^ 32 | negsuc n ↦ 0 ]

abbrev pub entry_of_u32 : Text → ℕ → Value
entry_of_u32 key n = Value.dict_entry (Value.string key) (Value.variant (Value.uint32 n))

abbrev pub credentials_dict : ConnectionEntry → Value
credentials_dict c = Value.array (DType.dict_entry DType.string DType.variant) (
    Values.cons (entry_of_u32 (codes "UnixUserID") c.credentials.uid)
      (one (entry_of_u32 (codes "ProcessID") (pid_of c))))

-- `handle_get_conn_uid`, `handle_get_conn_pid` and `handle_get_conn_credentials`, by what each tells of
-- the connection.
unfoldable pub about_connection : (ConnectionEntry → Value) → Values → Bus → DriverOutcome × Bus
unfolding with_name resolve_connection
about_connection tell args bus = with_name args bus λ name. (
  elim (resolve_connection name bus) [
    | some c ↦ answer (one (tell c)) []
    | none ↦ no_such_name (codes "Could not get UID of name '") name
  ],
  bus,
)

abbrev pub insert_texts : Option Text → Option Text → Assoc Text → Assoc Text
unfolding insert
insert_texts (some key) (some val) env = insert key val env
insert_texts (some key) none env = env
insert_texts none _ env = env

abbrev pub insert_element : Value → Assoc Text → Assoc Text
unfolding as_str
insert_element (Value.dict_entry k v) env = insert_texts (as_str k) (as_str v) env
insert_element _ env = env

abbrev pub insert_elements : Values → Assoc Text → Assoc Text
insert_elements Values.nil env = env
insert_elements (Values.cons v vs) env = insert_elements vs (insert_element v env)

abbrev pub elements_of : Option Value → Option Values
unfolding unwrap_variant
elements_of none = none
elements_of (some v) = elim (unwrap_variant v) [ Value.array t vs ↦ some vs | _ ↦ none ]

unfoldable pub handle_update_activation_env : Values → Bus → DriverOutcome × Bus
unfolding get_value
handle_update_activation_env args bus = elim bus.kind [
  | BusKind.system ↦ (
    refuse (
        driver_error Errors.access_denied
          (codes "Cannot change activation environment on a system bus.")),
    bus,
  )
  | BusKind.session ↦ elim (elements_of (get_value args 0)) [
    | none ↦ (refuse (invalid_args (codes "expected a{ss} environment map")), bus)
    | some elements ↦ (
      answer Values.nil [],
      record bus { activation_environment = insert_elements elements bus.activation_environment },
    )
  ]
]

unfoldable pub name_has_owner_answer : Values → Bus → DriverOutcome
unfolding get_value as_str name_has_owner
name_has_owner_answer Values.nil bus = refuse (invalid_args (codes "NameHasOwner needs a name"))
name_has_owner_answer (Values.cons v vs) bus = elim (as_str v) [
  | none ↦ refuse (invalid_args (codes "NameHasOwner needs a name"))
  | some name ↦ answer (one (Value.boolean (name_has_owner name bus.registry))) []
]
