-- ===== src/Directive/Apply.antt =====
-- `DirectiveHandler::apply` of directive.rs, and the end of a timed item that its task reports.
use nbe.Prelude.{ℕ, zero, suc, Bool, true, false, ◌&&◌, Option, none, some, List, [], ◌∷◌, ◌++◌}
use nbe.Clock.{MasterClock, ClockState, start}
use nbe.Directive.{
  Engine, applied_state_version, item_end, Timer, Result, ok, err, Command, show_start, show_stop,
  record_stop, stream_stop, take, fallback, overlay, marker_add, recall, ignored,
}
use nbe.Directive.Takes.{apply_take, on_fallback, on_recall, on_overlay, on_marker_add, is_current}
use nbe.Directive.Outputs.{Outcome, on_record_stop, on_stream_stop, on_show_stop}

-- A handler that fails before it changes anything.
abbrev pub outcome : Engine → Result Engine → Outcome
outcome e (ok e') = (e', none)
outcome e (err x) = (e, some x)

-- The match on the command, without the arms of show.load, show.resync, the audio directives and the starts of the
-- outputs.
unfoldable pub handle : Engine → ℕ → Command → Outcome
unfolding apply_take on_fallback on_recall on_overlay on_marker_add on_record_stop on_stream_stop
    on_show_stop
handle e now show_start = (record e { clock = start e.clock now }, none)
handle e now (show_stop quiesce force rec str) = on_show_stop e quiesce force rec str
handle e now (record_stop result) = on_record_stop e result
handle e now (stream_stop result) = on_stream_stop e result
handle e now (take item_ref p) = outcome e (apply_take e now item_ref p true)
handle e now fallback = (on_fallback e, none)
handle e now (overlay show id frames) = (on_overlay e now show id frames, none)
handle e now (marker_add name timecode) = outcome e (on_marker_add e now name timecode)
handle e now (recall target p) = outcome e (on_recall e now target p)
handle e now ignored = (e, none)

-- The applied version is stored and acknowledged after a handler that did not fail.
unfoldable pub acknowledge : Engine → ℕ → Engine
acknowledge e version = record e {
  last_applied = version;
  outgoing = e.outgoing ++ (applied_state_version version ∷ []);
}

abbrev pub settled : Outcome → ℕ → Outcome
settled (e, none) version = (acknowledge e version, none)
settled (e, some x) version = (e, some x)

unfoldable pub apply : Engine → ℕ → ℕ → Command → Outcome
unfolding handle acknowledge
apply e now version c = settled (handle e now c) version

abbrev pub is_running : MasterClock → Bool
is_running c = elim c.state [ ClockState.stopped ↦ false | ClockState.running ↦ true ]

-- The task of `schedule_done` after its sleep.
unfoldable pub report_end : Engine → Timer → Engine
unfolding is_current
report_end e t = elim (is_running e.clock && is_current e.playing t.item_ref t.generation) [
  | true ↦ record e { outgoing = e.outgoing ++ (item_end t.item_ref t.generation ∷ []) }
  | false ↦ e
]

-- The timer at a position of the pending ones, taken out.
abbrev pub take_out : List Timer → ℕ → Option (Timer × List Timer)
take_out [] i = none
take_out (t ∷ ts) zero = some (t, ts)
take_out (t ∷ ts) (suc i) = elim (take_out ts i) [ none ↦ none | some p ↦ some (p.0, t ∷ p.1) ]

-- A directive with the instant it arrives and its version, or the end of the sleep of a pending task, in any order.
pub data Event : Type 0 where
  directive : ℕ → ℕ → Command → Event
  wakes : ℕ → Event

unfoldable pub wake : Engine → ℕ → Engine
unfolding report_end
wake e i = elim (take_out e.pending i) [
  | none ↦ e
  | some p ↦ report_end (record e { pending = p.1 }) p.0
]

unfoldable pub step : Engine → Event → Engine
unfolding apply wake
step e (directive now version c) = (apply e now version c).0
step e (wakes i) = wake e i

unfoldable pub run : Engine → List Event → Engine
unfolding step
run e [] = e
run e (x ∷ xs) = run (step e x) xs
