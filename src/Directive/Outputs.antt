-- ===== src/Directive/Outputs.antt =====
-- The stops of the record, the stream and the show, directive.rs. What a session's stop returns is an input. The two
-- closes of `show.stop` run side by side on disjoint state, and are one step here.
use nbe.Prelude.{Bool, true, false, ◌&&◌, ◌||◌, Option, none, some, []}
use nbe.Clock.{stop}
use nbe.Directive.{
  Engine, RecordState, StreamState, DirectiveError, invalid, forbidden_state, no_hardware_encoder,
  timeout, disk, SessionError, no_encoder, timed_out, disk_failed, record_failed, Stopped, finished,
  failed,
}

-- A handler's state after it, and its error.
abbrev pub Outcome : Type 0
Outcome = Engine × Option DirectiveError

abbrev pub is_recording : RecordState → Bool
is_recording RecordState.idle = false
is_recording RecordState.recording = true

abbrev pub is_live : StreamState → Bool
is_live StreamState.idle = false
is_live StreamState.live = true

abbrev pub session_err : SessionError → DirectiveError
session_err no_encoder = no_hardware_encoder
session_err timed_out = timeout
session_err disk_failed = disk
session_err record_failed = invalid

-- `stop_and_finish(..).map_err(session_err)`, and whether the markers stay.
abbrev pub record_error : Stopped → Option DirectiveError
record_error finished = none
record_error (failed x) = some (session_err x)

abbrev pub stream_error : Stopped → Option DirectiveError
stream_error finished = none
stream_error (failed x) = some invalid

abbrev pub keeps_markers : Stopped → Bool
keeps_markers finished = false
keeps_markers (failed no_encoder) = false
keeps_markers (failed timed_out) = true
keeps_markers (failed disk_failed) = false
keeps_markers (failed record_failed) = false

-- The take is closed: its session, its tap, and its markers where the thread does not own them still.
unfoldable pub close_record : Engine → Stopped → Engine
close_record e result = record e {
  record_session = false;
  record_tap = false;
  record_state = RecordState.idle;
  markers = elim (keeps_markers result) [ true ↦ e.markers | false ↦ [] ];
}

unfoldable pub close_stream : Engine → Engine
close_stream e = record e {
  stream_session = false;
  stream_state = StreamState.idle;
  stream_tap_selection = false;
  stream_tap = false;
}

unfoldable pub on_record_stop : Engine → Stopped → Outcome
unfolding close_record
on_record_stop e result = elim (is_recording e.record_state) [
  | false ↦ (e, some forbidden_state)
  | true ↦ elim e.record_session [
    | true ↦ (close_record e result, record_error result)
    | false ↦ (record e { record_tap = false; record_state = RecordState.idle }, none)
  ]
]

unfoldable pub on_stream_stop : Engine → Stopped → Outcome
unfolding close_stream
on_stream_stop e result = elim (is_live e.stream_state) [
  | false ↦ (e, some forbidden_state)
  | true ↦ elim e.stream_session [
    | true ↦ (close_stream e, stream_error result)
    | false ↦ (close_stream e, none)
  ]
]

abbrev pub record_active : Engine → Bool
record_active e = is_recording e.record_state && e.record_session

abbrev pub stream_active : Engine → Bool
stream_active e = is_live e.stream_state && e.stream_session

-- The record's half and the stream's, where they are active.
abbrev pub closed_record : Bool → Engine → Stopped → Engine
closed_record true e result = close_record e result
closed_record false e result = e

abbrev pub closed_stream : Bool → Engine → Engine
closed_stream true e = close_stream e
closed_stream false e = e

abbrev pub error_if : Bool → Option DirectiveError → Option DirectiveError
error_if true o = o
error_if false o = none

abbrev pub first_error : Option DirectiveError → Option DirectiveError → Option DirectiveError
first_error none b = b
first_error (some a) b = some a

-- With no session to stop the states fall back to idle.
unfoldable pub quiet_outputs : Engine → Engine
quiet_outputs e = record e { record_state = RecordState.idle; stream_state = StreamState.idle }

-- The tail of every stop of the show.
unfoldable pub halt : Engine → Engine
halt e = record e { clock = stop e.clock; decode_sessions = 0; transition = none }

-- The match on `(quiesce, force)`.
abbrev pub stop_outputs : Engine → Bool → Bool → Stopped → Stopped → Outcome
stop_outputs e false false rec str = (e, some forbidden_state)
stop_outputs e quiesce true rec str =
    (halt (closed_stream (stream_active e) (closed_record (record_active e) e finished)), none)
stop_outputs e true false rec str = (
  halt (closed_stream (stream_active e) (closed_record (record_active e) e rec)),
  first_error (error_if (record_active e) (record_error rec))
      (error_if (stream_active e) (stream_error str)),
)

unfoldable pub on_show_stop : Engine → Bool → Bool → Stopped → Stopped → Outcome
unfolding close_record close_stream quiet_outputs halt
on_show_stop e quiesce force rec str = elim (record_active e || stream_active e) [
  | true ↦ stop_outputs e quiesce force rec str
  | false ↦ (halt (quiet_outputs e), none)
]
