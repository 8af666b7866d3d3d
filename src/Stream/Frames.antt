-- ===== src/Stream/Frames.antt =====
-- What becomes of each frame that the render loop hands to the stream, stream.rs.
use nbe.Prelude.{
  ℕ, suc, ◌+◌, ◌≡◌, refl, arith, Bool, true, false, ◌&&◌, not, Bool-cases, List-cases, inl, inr,
  Option, none, some, Option-cases, List, [], ◌∷◌, length, length-append, if◌then◌else◌,
}
use nbe.Stream.Handoff.{
  hands_off, opens, turns, stops, Feed, opened, is_done, hand_off_stream_surface, leave, start,
  turn_of, turn, Event, step, run,
}
use nbe.Record.{count}
use nbe.Record.Totals.{zeroed}
use nbe.Stream.{StreamThread, Surface, Audio, TaskCall}
use nbe.Stream.Thread.{drop_frame, encode_video}
use nbe.Stream.Counted.{
  accounted, accounted-encode_video, accounted-drain_audio, accounted-open_thread,
}

accounted-hand_off :
    (f : Feed) (s : Surface) (drawn : Bool)
    → is_done f.phase ≡ false
    → let g = (hand_off_stream_surface f s drawn).1 in
      accounted g.shared + length g.channel ≡ suc (accounted f.shared + length f.channel)
unfolding hand_off_stream_surface drop_frame count
accounted-hand_off f s drawn h = ground (arith, length-append f.channel (s ∷ []))

accounted-start :
    (f : Feed) (encoder : Bool) (asc : Option (List ℕ))
    → accounted (start f encoder asc).shared ≡ accounted f.shared
unfolding start
accounted-start f encoder asc = elim (Option-cases f.thread) [
  | inl e ↦ rw (e, start) (accounted-open_thread f.shared encoder asc)
  | inr (t, e) ↦ rw (e, start) refl
]

channel-start :
    (f : Feed) (encoder : Bool) (asc : Option (List ℕ)) → (start f encoder asc).channel ≡ f.channel
unfolding start
channel-start f encoder asc = ground arith

-- The frames that a step loses without a count: those in the channel when the thread leaves on a stop, and one handed
-- off after it left.
abbrev pub uncounted : Feed → Event → ℕ
uncounted f (hands_off s drawn) = if drawn && is_done f.phase then 1 else 0
uncounted f (opens encoder asc) = 0
uncounted f (turns gone audio) = elim f.thread [
  | none ↦ 0
  | some t ↦ if is_done f.phase then 0 else if f.stop then length f.channel else 0
]
uncounted f stops = 0

abbrev pub handed : Event → ℕ
handed (hands_off s drawn) = 1
handed (opens encoder asc) = 0
handed (turns gone audio) = 0
handed stops = 0

accounted-turn_of :
    (f : Feed) (t : StreamThread) (gone : Bool) (audio : Audio)
    → accounted (turn_of f t gone audio).shared
        + length (turn_of f t gone audio).channel
        + (if f.stop then length f.channel else 0)
      ≡ accounted f.shared + length f.channel
unfolding turn_of leave
accounted-turn_of f t gone audio = elim (Bool-cases f.stop) [
  | inl e ↦ rw (e, turn_of) (omega arith)
  | inr e ↦ elim (List-cases f.channel) [
    | inl c ↦ rw (e, c, turn_of) (ground (arith, c, accounted-drain_audio t f.shared audio))
    | inr (s, rest, c) ↦
        rw (e, c, turn_of)
          (omega (
            arith,
            accounted-encode_video t f.shared s,
            accounted-drain_audio (encode_video t f.shared s).0 (encode_video t f.shared s).1 audio,
          ))
  ]
]

accounted-step :
    (f : Feed) (e : Event)
    → accounted (step f e).shared + length (step f e).channel + uncounted f e
      ≡ accounted f.shared + length f.channel + handed e
unfolding step
accounted-step f (hands_off s drawn) = elim (Bool-cases (is_done f.phase)) [
  | inl d ↦ unfold hand_off_stream_surface drop_frame count in ground (arith, d)
  | inr d ↦ ground (arith, d, accounted-hand_off f s drawn d)
]
accounted-step f (opens encoder asc) =
    ground (arith, accounted-start f encoder asc, channel-start f encoder asc)
accounted-step f (turns gone audio) = elim (Option-cases f.thread) [
  | inl e ↦ rw (e, turn) (omega arith)
  | inr (t, e) ↦ ground (arith, e, accounted-turn_of f t gone audio)
]
accounted-step f stops = omega arith

abbrev pub hand_offs : List Event → ℕ
hand_offs [] = 0
hand_offs (e ∷ es) = handed e + hand_offs es

abbrev pub left_out : Feed → List Event → ℕ
left_out f [] = 0
left_out f (e ∷ es) = uncounted f e + left_out (step f e) es

accounted-run :
    (f : Feed) (es : List Event)
    → accounted (run f es).shared + length (run f es).channel + left_out f es
      ≡ accounted f.shared + length f.channel + hand_offs es
unfolding run
accounted-run f [] = refl
accounted-run f (e ∷ es) = omega (arith, accounted-step f e, accounted-run (step f e) es)

-- No stop, and no turn that finds every sender gone.
abbrev goes_on : Event → Bool
goes_on (hands_off s drawn) = true
goes_on (opens encoder asc) = true
goes_on (turns gone audio) = not gone
goes_on stops = false

abbrev pub all_go_on : List Event → Bool
all_go_on [] = true
all_go_on (e ∷ es) = goes_on e && all_go_on es

record IsOn (f : Feed) : Type 0 where
  unstopped : f.stop ≡ false
  undone : is_done f.phase ≡ false

step-IsOn : (f : Feed) (e : Event) → goes_on e ≡ true → IsOn f → IsOn (step f e)
unfolding step hand_off_stream_surface start turn turn_of
step-IsOn f (hands_off s drawn) h v = ground (arith, v)
step-IsOn f (opens encoder asc) h v = ground (arith, v)
step-IsOn f (turns gone audio) h v = ground (arith, v)
step-IsOn f stops h v = cc

left_out_none : (f : Feed) (es : List Event) → all_go_on es ≡ true → IsOn f → left_out f es ≡ 0
left_out_none f [] h v = refl
left_out_none f (e ∷ es) h v = elim (Bool-cases (goes_on e)) [
  | inl g ↦
      ground
        (arith, g, v, here e g, left_out_none (step f e) es (ground (arith, g)) (step-IsOn f e g v))
  | inr g ↦ ground (arith, g)
]
  where
    here : (e : Event) → goes_on e ≡ true → uncounted f e ≡ 0
    here (hands_off s drawn) g = ground (arith, v)
    here (opens encoder asc) g = refl
    here (turns gone audio) g = ground (arith, v)
    here stops g = refl

-- Of the surfaces that the loop hands to a new stream, in any order of hand-offs and turns of the thread, each is
-- encoded, is counted once at one path, waits in the channel, or is lost by the end of the thread; none is lost while
-- nothing stops the thread.
pub run-frames :
    (task : List (List TaskCall)) (es : List Event)
    → let f = run (opened task zeroed) es in
      hand_offs es
      ≡ accounted f.shared
        + length f.channel
        + (if all_go_on es then 0 else left_out (opened task zeroed) es)
unfolding opened
run-frames task es = elim (Bool-cases (all_go_on es)) [
  | inl h ↦ ground (arith, h, accounted-run f es, left_out_none f es h on)
  | inr h ↦ ground (arith, h, accounted-run f es)
]
  where
    f : Feed
    f = opened task zeroed

    on : IsOn f
    on = unfold opened in record { unstopped = refl; undone = refl }
