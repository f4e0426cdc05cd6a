-- ===== src/Tests/Dispatch.antt =====
-- The theorems on crates/oxibus-daemon/src/driver.rs and dispatch.rs at a bus with two connections.
use oxibus.Base.{
  length, fail_if, ◌≡◌, ◌≤◌, refl, true, false, none, some, [], ◌∷◌, Text, codes, beq, arith,
}
use oxibus.Base.Assoc.{lookup, values}
use oxibus.Core.Header.{MessageType, HeaderField, to_u8}
use oxibus.Core.Header.Access
use oxibus.Core.Bytes.{to_bytes}
use oxibus.Core.Header.Wire.{write}
use oxibus.Core.Marshal.{
  marshal_body, write_values, write_raw_string, signatures_of, write_signature_str, close_array,
  new_marshaler, align, patch_u32, write_u32,
}
use oxibus.Core.Signature.{new_signature, code_of}
use oxibus.Core.Message.{Message}
use oxibus.Core.Names.Errors
use oxibus.Core.Types.{Value, Values, to_signature_string, value_type, alignment}
use oxibus.Core.Types.Int.{pos}
use oxibus.Daemon.Bus.{BusKind, Bus, World}
use oxibus.Daemon.Dispatch.Routing.{
  is_hello_call, set_sender, route_call, dispatch_incoming, handle_driver_call,
}
use oxibus.Daemon.Dispatch.Routing.Mediation.{OnlyMediated, route_call-Mediated}
use oxibus.Daemon.Dispatch.Routing.Unregistered.{OnlyWrites, OnlyTold, dispatch_incoming-OnlyTold}
use oxibus.Daemon.Driver.{refuse, handle_hello, handle_add_match, request_checked}
use oxibus.Daemon.Driver.Arguments.{driver_error}
use oxibus.Daemon.Driver.Limits.{
  RulesWithin, handle_hello_once, handle_add_match-RulesWithin, request_checked-bounded,
}
use oxibus.Daemon.Connections.{accept, disconnect}
use oxibus.Daemon.Connections.Life.{Runs, started, next, accepted, closed, Runs-IsSafe}
use oxibus.Daemon.Dispatch.Routing.Valid.{IsSafe}
use oxibus.Daemon.Registry.{new, ConnectionEntry, get, names_held_by}

abbrev a : Text
a = codes ":1.1"

abbrev b : Text
b = codes ":1.2"

abbrev client : ConnectionEntry
client = record {
  unique_name = a;
  credentials = record { uid = 0; gid = 0; pid = pos 10 };
  security_label = none;
  match_rules = [];
  is_monitor = false;
  is_registered = false;
}

abbrev server : ConnectionEntry
server = record client { unique_name = b; is_registered = true }

abbrev bus : Bus
bus = record {
  kind = BusKind.session;
  limits = record {
    max_names_per_connection = 5;
    max_match_rules_per_connection = 5;
    max_incomplete_connections = 9;
    max_connections_per_user = 9;
  };
  registry = record {
    connections = (a, client) ∷ (b, server) ∷ [];
    names = [];
    next_id = 3;
    incomplete = 0;
  };
  policy = [];
  activatable = [];
  stats = record {
    messages_routed = 0;
    bytes_routed = 0;
    signals_delivered = 0;
    activations_started = 0;
    policy_denials = 0;
  };
  guid_hex = codes "00";
  activation_environment = [];
  serial = 1;
  sent = [];
}

abbrev world : World
world = record {
  big_endian = false;
  resolve = λ uid. record { uid = uid; user_name = none; group_names = [] };
  check_permission = λ q. true;
  write_message = λ s. true;
  spawn = λ name bus. some (codes "no service");
  polls = λ name. [];
  uptime_secs = 1;
}

-- A call for the second connection.
abbrev call : Message
call = record {
  header = record {
    big_endian = false;
    message_type = MessageType.method_call;
    flags = 0;
    protocol_version = 1;
    body_length = 0;
    serial = 7;
    fields = HeaderField.destination b ∷ HeaderField.member (codes "Get") ∷ [];
  };
  body = Values.nil;
  fds = [];
}

route_call-Mediated_example :
    OnlyMediated world server call bus (route_call world server call b bus)
route_call-Mediated_example = route_call-Mediated world server call b bus

no_hello : is_hello_call (set_sender client.unique_name call) ≡ false
unfolding is_hello_call set_sender to_u8 beq Access.set_sender Access.destination Access.interface
    Access.member
no_hello = refl

dispatch_incoming-OnlyTold_example :
    OnlyWrites bus (dispatch_incoming world client call bus)
    × OnlyTold client
        (set_sender client.unique_name call)
        bus
        (dispatch_incoming world client call bus)
dispatch_incoming-OnlyTold_example = dispatch_incoming-OnlyTold world client call bus refl no_hello

client_found : get client.unique_name bus.registry ≡ some client
unfolding get lookup beq
client_found = refl

handle_hello_once_example :
    (get client.unique_name (handle_hello client bus).1.registry
      ≡ some (record client { is_registered = true }))
    × ((k : Text)
        → beq k client.unique_name ≡ false
        → get k (handle_hello client bus).1.registry ≡ get k bus.registry)
    × (handle_hello (record client { is_registered = true }) (handle_hello client bus).1 ≡ (
      refuse (driver_error Errors.failed (codes "Already handled an Hello message")),
      (handle_hello client bus).1,
    ))
handle_hello_once_example = handle_hello_once client bus client_found refl

abbrev rule_args : Values
rule_args = Values.cons (Value.string (codes "type='signal'")) Values.nil

handle_add_match-RulesWithin_example :
    RulesWithin 5 client.unique_name (handle_add_match client rule_args bus).1.registry
handle_add_match-RulesWithin_example =
    handle_add_match-RulesWithin client rule_args bus client_found (omega arith)

held : names_held_by server.unique_name bus.registry ≤ 5
unfolding names_held_by values
held = omega arith

request_checked-bounded_example :
    names_held_by server.unique_name (request_checked world server (codes "x.Y") 0 bus).1.registry
    ≤ 5
request_checked-bounded_example = request_checked-bounded world server (codes "x.Y") 0 bus held

abbrev empty_bus : Bus
empty_bus = record bus { registry = new }

run : Runs (disconnect world a (accept client.credentials none empty_bus))
run =
    next (next (started refl) (accepted client.credentials none empty_bus))
      (closed world a (accept client.credentials none empty_bus))

Runs-IsSafe_example :
    IsSafe (disconnect world a (accept client.credentials none empty_bus)).registry
Runs-IsSafe_example = Runs-IsSafe run

-- The reply to a call of a member that holds a NUL is not written.
abbrev nul_call : Message
nul_call = record call {
  header = record (call.header) { fields = HeaderField.member (0 ∷ []) ∷ [] };
}

nul_unanswered : (handle_driver_call world server nul_call bus).sent ≡ []
unfolding handle_driver_call marshal_body write_values write_raw_string fail_if
nul_unanswered = refl

-- The reply to a call of a member that the driver does not know is.
answered : length (handle_driver_call world server call bus).sent ≡ 1
unfolding handle_driver_call marshal_body write_values write_raw_string fail_if signatures_of
    to_signature_string value_type new_signature code_of Access.validate Access.error_name
    Access.reply_serial write write_signature_str close_array new_marshaler align patch_u32
    write_u32 to_bytes alignment
answered = refl
