-- ===== src/Stream/Session.antt =====
-- The end of a `StreamSession`, stream.rs: `stop_and_close`, `abandon` and the drop. What the waits see is an input: whether
-- the thread exits, or panics, inside the backstop, and whether the transport closes inside its timeout. A join
-- returns at once, since the thread has exited.
use nbe.Prelude.{
  ◌≡◌, ◌⊎◌, inl, inr, refl, arith, Bool, true, false, ◌&&◌, ◌||◌, not, Option, none, some, List, [],
  ◌∷◌, if◌then◌else◌,
}

-- What the session holds, and what it has done to the thread and to the transport: each is told to stop, or not, and the
-- thread is joined, or not. `threaded` says that there is a thread, and `published` that there is a transport.
pub record StreamSession : Type 0 where
  pub threaded : Bool
  pub published : Bool
  pub closed : Bool
  pub publisher : Bool
  pub frame_tx : Bool
  pub control_tx : Bool
  pub done_rx : Bool
  pub handle : Bool
  pub surface_pool : Bool
  pub thread_told : Bool
  pub transport_told : Bool
  pub joined : Bool

-- A session just opened: a thread there is where there is a publisher to feed.
abbrev pub session : Bool → Bool → StreamSession
session published pool = record {
  threaded = published;
  published = published;
  closed = false;
  publisher = published;
  frame_tx = published;
  control_tx = published;
  done_rx = published;
  handle = published;
  surface_pool = pool;
  thread_told = false;
  transport_told = false;
  joined = false;
}

pub data StreamError : Type 0 where
  thread_did_not_exit transport_did_not_close injected : StreamError

-- `frame_tx` goes, and `Stop` is sent, where the control channel is still there.
unfoldable pub signal_thread : StreamSession → StreamSession
signal_thread s = record s {
  frame_tx = false;
  control_tx = false;
  thread_told = s.control_tx || s.thread_told;
}

-- Whether the thread is known to have exited, or there is none to wait for.
unfoldable pub stop_thread : StreamSession → Bool → Bool × StreamSession
unfolding signal_thread
stop_thread s exits =
    let t : StreamSession = signal_thread s in
    if t.done_rx
    then if exits
      then (true, record t { done_rx = false; handle = false; joined = t.handle || t.joined })
      else (false, record t { done_rx = false; handle = false })
    else (true, t)

-- `publisher.take()` with its shutdown.
unfoldable pub shut_transport : StreamSession → StreamSession
shut_transport s = record s { publisher = false; transport_told = s.publisher || s.transport_told }

-- `forced` is the seam that makes a teardown fail.
unfoldable pub stop_and_close :
    StreamSession → Bool → Bool → Bool → Option StreamError × StreamSession
unfolding stop_thread shut_transport
stop_and_close s forced exits closes =
    if forced
    then (some injected, s)
    else let (thread_exited, t) = stop_thread s exits in
      let transport_closed : Bool = closes || not t.publisher in
      let u : StreamSession = record (shut_transport t) { closed = true; surface_pool = false } in
      (
        if thread_exited
            then if transport_closed then none else some transport_did_not_close
            else some thread_did_not_exit,
        u,
      )

unfoldable pub abandon : StreamSession → StreamSession
unfolding signal_thread shut_transport
abandon s = record (shut_transport (record (signal_thread s) { done_rx = false; handle = false })) {
  surface_pool = false;
  closed = true;
}

unfoldable pub drop_session : StreamSession → StreamSession
unfolding abandon
drop_session s = if s.closed then s else abandon s

pub data Call : Type 0 where
  stops_and_closes : Bool → Bool → Bool → Call
  abandons : Call

unfoldable pub apply : StreamSession → Call → StreamSession
unfolding stop_and_close abandon
apply s (stops_and_closes forced exits closes) = (stop_and_close s forced exits closes).1
apply s abandons = abandon s

unfoldable pub run : StreamSession → List Call → StreamSession
unfolding apply
run s [] = s
run s (c ∷ cs) = run (apply s c) cs

-- A session either still has all that it opened with, or has told both and released all.
record Whole (s : StreamSession) : Type 0 where
  unclosed : s.closed ≡ false
  untold : (s.thread_told ≡ false) × (s.transport_told ≡ false) × (s.joined ≡ false)
  has : (s.control_tx ≡ s.threaded) × (s.publisher ≡ s.published) × (s.done_rx ≡ s.threaded)
  holds : (s.handle ≡ s.threaded) × (s.frame_tx ≡ s.threaded)

pub record IsReleased (s : StreamSession) : Type 0 where
  pub shut : s.closed ≡ true
  pub told : (s.thread_told ≡ s.threaded) × (s.transport_told ≡ s.published)
  pub ends : (s.frame_tx ≡ false) × (s.control_tx ≡ false) × (s.done_rx ≡ false)
  pub handles : (s.handle ≡ false) × (s.publisher ≡ false) × (s.surface_pool ≡ false)

apply-Whole : (s : StreamSession) (c : Call) → Whole s → Whole (apply s c) ⊎ IsReleased (apply s c)
unfolding apply stop_and_close stop_thread shut_transport signal_thread abandon
apply-Whole s (stops_and_closes true exits closes) v = inl v
apply-Whole s (stops_and_closes false exits closes) v = inr (ground (arith, v))
apply-Whole s abandons v = inr (ground (arith, v))

apply-IsReleased : (s : StreamSession) (c : Call) → IsReleased s → IsReleased (apply s c)
unfolding apply stop_and_close stop_thread shut_transport signal_thread abandon
apply-IsReleased s (stops_and_closes forced exits closes) v = ground (arith, v)
apply-IsReleased s abandons v = ground (arith, v)

run-kept :
    (s : StreamSession) (cs : List Call)
    → Whole s ⊎ IsReleased s
    → Whole (run s cs) ⊎ IsReleased (run s cs)
unfolding run
run-kept s [] v = v
run-kept s (c ∷ cs) (inl v) = run-kept (apply s c) cs (apply-Whole s c v)
run-kept s (c ∷ cs) (inr v) = run-kept (apply s c) cs (inr (apply-IsReleased s c v))

drop_session-IsReleased : (s : StreamSession) → Whole s ⊎ IsReleased s → IsReleased (drop_session s)
unfolding drop_session shut_transport signal_thread abandon
drop_session-IsReleased s (inl v) = ground (arith, v)
drop_session-IsReleased s (inr v) = ground (arith, v)

session-Whole : (published pool : Bool) → Whole (session published pool)
session-Whole published pool = record {
  unclosed = refl;
  untold = (refl, refl, refl);
  has = (refl, refl, refl);
  holds = (refl, refl);
}

-- Whatever stops, closes and abandons follow each other on a session, and however each ends, a session that is then
-- dropped has told its thread and its transport to stop, each exactly where there is one, and holds no end of a
-- channel, no handle, no publisher and no surfaces.
pub run-IsReleased :
    (published pool : Bool) (cs : List Call)
    → IsReleased (drop_session (run (session published pool) cs))
run-IsReleased published pool cs =
    drop_session-IsReleased _
      (run-kept (session published pool) cs (inl (session-Whole published pool)))

-- What a close of a session that has its thread or its transport still answers.
abbrev pub answer : Bool → Bool → Bool → Bool → Option StreamError
answer published true exits closes = some injected
answer published false exits closes =
    if published && not exits
    then some thread_did_not_exit
    else if published && not closes
    then some transport_did_not_close
    else none

-- The first close of a session that was not abandoned answers that it is done, for the acknowledgement, only where the
-- thread has exited and is joined and the transport has closed, or there is neither; else it says which one did not.
-- Where it is not made to fail it closes the session in every case.
pub stop_and_close-answer :
    (published pool forced exits closes : Bool)
    → let (error, s) = stop_and_close (session published pool) forced exits closes in
      (error ≡ answer published forced exits closes)
      × (s.joined ≡ (published && exits && not forced))
      × (s.closed ≡ not forced)
unfolding stop_and_close stop_thread shut_transport signal_thread
stop_and_close-answer published pool forced exits closes = ground arith
