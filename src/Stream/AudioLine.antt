-- ===== src/Stream/AudioLine.antt =====
-- The audio that a stream gives its publisher, stream.rs: which packets, in which order, with which timestamps.
use nbe.Prelude.{
  ℕ, ◌≡◌, refl, sym, subst, arith, Bool, ◌||◌, Bool-cases, List-cases, inl, inr, Option, none, some,
  Option-cases, List, [], ◌∷◌, ◌++◌, drop,
}
use nbe.Publisher.{PublishFrame, audio_frame}
use nbe.Record.Totals.{zeroed}
use nbe.Stream.Handoff.{
  hands_off, opens, turns, stops, Feed, opened, is_done, hand_off_stream_surface, leave, start,
  turn_of, turn, Event, step, run,
}
use nbe.Stream.{StreamThread, Shared, Surface, Audio, TaskCall}
use nbe.Stream.Flv.{aac_sequence_header}
use nbe.Stream.Thread.{
  drop_frame, announce_aac, open_thread, encode_video, send_packets, drain_audio,
}
use nbe.Stream.Packets.{On, send_packets-On, packets-send_packets}
use nbe.Stream.AudioView.{audios, numbered, announcement, view-publish, line, encode_video-Same}

abbrev Lined : List PublishFrame → StreamThread × Shared → Type 0
Lined first r = On first r.1.packets (line r.0) (audios r.1.offered)

drain_audio-Lined :
    (first : List PublishFrame) (t : StreamThread) (a : Shared) (audio : Audio)
    → Lined first (t, a)
    → Lined first (drain_audio t a audio)
unfolding drain_audio
drain_audio-Lined first t a audio v = elim (Option-cases audio.answer) [
  | inl e ↦ ground (arith, e, v)
  | inr (ps, e) ↦ ground (arith, e, v, answered ps)
]
  where
    b : List (List ℕ) → Shared
    b ps = record a { packets = a.packets ++ ps }

    answered : (ps : List (List ℕ)) → Lined first (send_packets t (b ps) ps)
    answered ps =
        rw (packets-send_packets t (b ps) ps) (send_packets-On first a.packets t (b ps) ps v)

encode_video-Lined :
    (first : List PublishFrame) (t : StreamThread) (a : Shared) (s : Surface)
    → Lined first (t, a)
    → Lined first (encode_video t a s)
encode_video-Lined first t a s v =
    let (x, y) = encode_video-Same t a s in
    subst (λ w. On first w.1 (line (encode_video t a s).0) w.0) (sym x)
      (subst (λ l. On first a.packets l (audios a.offered)) (sym y) v)

turn_of-Lined :
    (first : List PublishFrame) (f : Feed) (t : StreamThread) (gone : Bool) (audio : Audio)
    → f.thread ≡ some t
    → Lined first (t, f.shared)
    → (u : StreamThread) × ((turn_of f t gone audio).thread ≡ some u)
      × Lined first (u, (turn_of f t gone audio).shared)
unfolding turn_of leave
turn_of-Lined first f t gone audio h v = elim (Bool-cases f.stop) [
  | inl e ↦ rw (e, turn_of) (t, h, v)
  | inr e ↦ elim (List-cases f.channel) [
    | inl c ↦ elim (Bool-cases gone) [
      | inl g ↦ rw (e, c, g, turn_of) (t, h, v)
      | inr g ↦
          rw (e, c, g, turn_of)
            ((drain_audio t f.shared audio).0, refl, drain_audio-Lined first t f.shared audio v)
    ]
    | inr (s, rest, c) ↦
        rw (e, c, turn_of)
          (
            _,
            refl,
            drain_audio-Lined first (encode_video t f.shared s).0 (encode_video t f.shared s).1
                audio (encode_video-Lined first t f.shared s v),
          )
  ]
]

-- A feed whose thread has opened.
record Going (first : List PublishFrame) (f : Feed) : Type 0 where
  thread : StreamThread
  open_now : f.thread ≡ some thread
  lined : Lined first (thread, f.shared)

step-Going :
    (first : List PublishFrame) (f : Feed) (e : Event) → Going first f → Going first (step f e)
unfolding step hand_off_stream_surface drop_frame start turn
step-Going first f (hands_off s drawn) v = ground (arith, v)
step-Going first f (opens encoder asc) v = ground (arith, v)
step-Going first f (turns gone audio) v = elim (Bool-cases (is_done f.phase)) [
  | inl d ↦ ground (arith, d, v)
  | inr d ↦
      let (u, h, w) = turn_of-Lined first f v.thread gone audio v.open_now v.lined in
      rw (v.open_now, d, turn) (record { thread = u; open_now = h; lined = w })
]
step-Going first f stops v = record { thread = v.thread; open_now = v.open_now; lined = v.lined }

run-Going :
    (first : List PublishFrame) (f : Feed) (es : List Event)
    → Going first f
    → Going first (run f es)
unfolding run
run-Going first f [] v = v
run-Going first f (e ∷ es) v = run-Going first (step f e) es (step-Going first f e v)

-- Before the thread opens.
record Silent (f : Feed) : Type 0 where
  unopened : f.thread ≡ none
  unheard : audios f.shared.offered ≡ []
  ungiven : f.shared.packets ≡ []

start-Going :
    (f : Feed) (encoder : Bool) (asc : Option (List ℕ))
    → Silent f
    → Going (announcement asc) (start f encoder asc)
unfolding start open_thread announce_aac
start-Going f encoder none v =
    rw (v.unopened, start)
      (record {
        thread = (open_thread f.shared encoder none).0;
        open_now = refl;
        lined =
            rw (v.unheard, v.ungiven)
              (record { ordered = refl; primed = omega arith; counted = omega arith });
      })
start-Going f encoder (some bytes) v =
    rw (v.unopened, start)
      (record {
        thread = (open_thread f.shared encoder (some bytes)).0;
        open_now = refl;
        lined =
            subst (λ w. On (announcement (some bytes)) w.1 (2, 0) w.0)
              (sym (view-publish ready (audio_frame (aac_sequence_header bytes) 0)))
              (rw (v.unheard, v.ungiven)
                (record { ordered = refl; primed = omega arith; counted = omega arith }));
      })
  where
    ready : Shared
    ready = record f.shared {
      stats = record f.shared.stats { encoder_ready = encoder || f.shared.stats.encoder_ready };
    }

-- The AAC configuration that the thread opens with, if it opens and has one.
abbrev pub configuration : List Event → Option (List ℕ)
configuration [] = none
configuration (hands_off s drawn ∷ es) = configuration es
configuration (opens encoder asc ∷ es) = asc
configuration (turns gone audio ∷ es) = configuration es
configuration (stops ∷ es) = configuration es

AudioLine : Option (List ℕ) → Shared → Type 0
AudioLine asc a = audios a.offered ≡ announcement asc ++ numbered 0 (drop 2 a.packets)

hand_off-Silent :
    (f : Feed) (s : Surface) (drawn : Bool) → Silent f → Silent (step f (hands_off s drawn))
unfolding step hand_off_stream_surface drop_frame
hand_off-Silent f s drawn v = ground (arith, v)

turn-Silent :
    (f : Feed) (gone : Bool) (audio : Audio) → Silent f → Silent (step f (turns gone audio))
unfolding step turn
turn-Silent f gone audio v = ground (arith, v)

run-Silent :
    (es : List Event) (f : Feed) → Silent f → AudioLine (configuration es) (run f es).shared
unfolding run step AudioLine
run-Silent [] f v = rw (v.unheard, v.ungiven) refl
run-Silent (hands_off s drawn ∷ es) f v =
    run-Silent es (step f (hands_off s drawn)) (hand_off-Silent f s drawn v)
run-Silent (opens encoder asc ∷ es) f v =
    (run-Going (announcement asc) (start f encoder asc) es
      (start-Going f encoder asc v)).lined.ordered
run-Silent (turns gone audio ∷ es) f v =
    run-Silent es (step f (turns gone audio)) (turn-Silent f gone audio v)
run-Silent (stops ∷ es) f v =
    run-Silent es (step f stops)
      (record { unopened = v.unopened; unheard = v.unheard; ungiven = v.ungiven })

-- The audio frames that a stream gives its publisher are the converter's configuration, if it has one, at 0 ms, and
-- then, in order, the packets that the converter gave but for the first two, the nth of them at n * 1024 samples of
-- 48 kHz in whole milliseconds, as a u32: no packet is repeated, left out or moved, whatever is shed.
pub run-audio :
    (task : List (List TaskCall)) (es : List Event)
    → let a = (run (opened task zeroed) es).shared in
      audios a.offered ≡ announcement (configuration es) ++ numbered 0 (drop 2 a.packets)
unfolding opened AudioLine
run-audio task es =
    run-Silent es (opened task zeroed) (record { unopened = refl; unheard = refl; ungiven = refl })
