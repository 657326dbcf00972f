-- ===== src/Status.antt =====
-- The return codes, disconnect reasons and event types of include/libgilberta.h with their numbers,
-- and `glb_getstring` of src/libgilberta/gilberta.c.
use Prim.Native.String.{String}
use libgilberta.Base.{ℕ, if◌then◌else◌, ◌==◌}

-- `GLBErrorCode`.
pub data ErrorCode : Type 0 where
  success unknown invalid_argument out_of_memory queue_full queue_empty message_too_long : ErrorCode
  socket_creation socket_binding connection_closed send_failed recv_failed : ErrorCode

unfoldable pub error_code : ErrorCode → ℕ
error_code success = 0
error_code unknown = 1
error_code invalid_argument = 2
error_code out_of_memory = 3
error_code queue_full = 4
error_code queue_empty = 5
error_code message_too_long = 6
error_code socket_creation = 7
error_code socket_binding = 8
error_code connection_closed = 9
error_code send_failed = 10
error_code recv_failed = 11

-- `glb_disconnectreason_t`.
pub data DisconnectReason : Type 0 where
  by_peer timeout reset : DisconnectReason

unfoldable pub reason_code : DisconnectReason → ℕ
reason_code by_peer = 128
reason_code timeout = 129
reason_code reset = 130

-- `glb_event_type_t`.
pub data EventType : Type 0 where
  none connect disconnect receive error migration stalled : EventType

unfoldable pub event_type_code : EventType → ℕ
event_type_code none = 160
event_type_code connect = 161
event_type_code disconnect = 162
event_type_code receive = 163
event_type_code error = 164
event_type_code migration = 165
event_type_code stalled = 166

-- The cases of the `switch`, over the numbers that the enumerations give them.
unfoldable pub glb_getstring : ℕ → String
unfolding error_code reason_code event_type_code
glb_getstring c =
    if c == error_code success
    then "Success"
    else if c == error_code invalid_argument
    then "Invalid argument"
    else if c == error_code out_of_memory
    then "Out of memory"
    else if c == error_code queue_full
    then "Queue full"
    else if c == error_code queue_empty
    then "Queue empty"
    else if c == error_code message_too_long
    then "Message too long"
    else if c == error_code socket_creation
    then "Socket creation failed"
    else if c == error_code socket_binding
    then "Socket binding failed"
    else if c == error_code connection_closed
    then "Connection closed"
    else if c == error_code send_failed
    then "Send failed"
    else if c == error_code recv_failed
    then "Receive failed"
    else if c == reason_code by_peer
    then "Disconnected by peer"
    else if c == reason_code timeout
    then "Disconnected by timeout"
    else if c == reason_code reset
    then "Connection reset"
    else if c == event_type_code connect
    then "connect"
    else if c == event_type_code disconnect
    then "disconnect"
    else if c == event_type_code receive
    then "receive"
    else if c == event_type_code error
    then "error"
    else "Unknown code"
