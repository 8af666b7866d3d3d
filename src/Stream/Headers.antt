-- ===== src/Stream/Headers.antt =====
-- The AVC sequence header and the units, stream.rs, with the header that the publisher keeps, rtmp.rs.
use nbe.Prelude.{
  ℕ, ◌≡◌, ◌⊎◌, All, length, refl, subst, arith, Bool, true, false, ◌||◌, Bool-cases, List-cases,
  inl, inr, Option, none, some, Option-cases, List, [], ◌∷◌, ◌++◌, ltb,
}
use nbe.Mp4.{EncodedUnit}
use nbe.Record.Totals.{zeroed}
use nbe.Stream.Handoff.{
  stream_channel_bound, hands_off, opens, turns, stops, Feed, opened, is_done,
  hand_off_stream_surface, leave, start, turn_of, turn, Event, step, run,
}
use nbe.Stream.{StreamThread, EncodeSession, Shared, Surface, Audio, TaskCall}
use nbe.Stream.Flv.{flv_audio_tag, aac_sequence_header, audio_ts_ms, avc_sequence_header}
use nbe.Stream.Thread.{
  drop_frame, announce_aac, open_thread, get_or_insert, encode_pixel_buffer_at, publish_header,
  send_units, encode_drawn, encode_video, publish_packet, send_packet, send_packets, drain_audio,
}
use nbe.Stream.Cached.{
  videos, Announced, Held, publish_audio-Held, publish_units-Held, publish_header-Held,
}

-- A surface whose parameter sets the predicate holds of.
abbrev Given : (List ℕ × List ℕ → Type 0) → Surface → Type 0
Given P s = (sets : List ℕ × List ℕ) → s.parameter_sets ≡ some sets → P sets

abbrev Both : (List ℕ × List ℕ → Type 0) → StreamThread × Shared → Type 0
Both P r = Held P r.0.seq_sent r.1

send_units-Both :
    (P : List ℕ × List ℕ → Type 0) (t : StreamThread) (a : Shared) (us : List EncodedUnit)
    (sets : Option (List ℕ × List ℕ))
    → ((x : List ℕ × List ℕ) → sets ≡ some x → P x)
    → Held P t.seq_sent a
    → Both P (send_units t a us sets)
unfolding send_units drop_frame
send_units-Both P t a [] sets k v = v
send_units-Both P t a (u ∷ us) none k v = elim (Bool-cases t.seq_sent) [
  | inl e ↦ rw e (publish_units-Held P a (u ∷ us) (subst (λ b. Held P b a) e v))
  | inr e ↦ rw e (subst (λ b. Held P b a) e v)
]
send_units-Both P t a (u ∷ us) (some (sps, pps)) k v = elim (Bool-cases t.seq_sent) [
  | inl e ↦ rw e (publish_units-Held P a (u ∷ us) (subst (λ b. Held P b a) e v))
  | inr e ↦ elim (Option-cases (avc_sequence_header sps pps)) [
    | inl n ↦ rw (e, n) v
    | inr (seq, n) ↦
        rw (e, n)
          (publish_units-Held P (publish_header a seq u.pts) (u ∷ us) (
            publish_header-Held P a sps pps seq u.pts (k (sps, pps) refl) n
              (subst (λ b. Held P b a) e v)))
  ]
]

encode_drawn-Both :
    (P : List ℕ × List ℕ → Type 0) (t : StreamThread) (a : Shared) (enc : EncodeSession) (i : ℕ)
    (s : Surface)
    → Given P s
    → Held P t.seq_sent a
    → Both P (encode_drawn t a enc i s)
unfolding encode_drawn drop_frame
encode_drawn-Both P t a enc i s k v = elim (Option-cases (encode_pixel_buffer_at enc i s.answer)) [
  | inl e ↦ rw (e, encode_drawn) v
  | inr ((units, enc'), e) ↦ rw (e, encode_drawn) (send_units-Both P _ _ units s.parameter_sets k v)
]

encode_video-Both :
    (P : List ℕ × List ℕ → Type 0) (t : StreamThread) (a : Shared) (s : Surface)
    → Given P s
    → Held P t.seq_sent a
    → Both P (encode_video t a s)
unfolding encode_video drop_frame
encode_video-Both P t a s k v = elim (Option-cases t.encoder) [
  | inl e ↦ rw (e, encode_video) v
  | inr (enc, e) ↦
      rw (e, encode_video)
        (elim (Bool-cases (ltb s.frame (get_or_insert t.base_frame s.frame))) [
          | inl b ↦ rw b v
          | inr b ↦ rw b (elim (Bool-cases s.drawn) [
            | inl d ↦ rw d (encode_drawn-Both P _ a enc _ s k v)
            | inr d ↦ rw d v
          ])
        ])
]

send_packet-Both :
    (P : List ℕ × List ℕ → Type 0) (t : StreamThread) (a : Shared) (p : List ℕ)
    → Held P t.seq_sent a
    → Both P (send_packet t a p)
unfolding send_packet publish_packet
send_packet-Both P t a p v =
    ground
      (arith, publish_audio-Held P t.seq_sent a (flv_audio_tag p) (audio_ts_ms t.audio_packets) v)

send_packets-Both :
    (P : List ℕ × List ℕ → Type 0) (t : StreamThread) (a : Shared) (ps : List (List ℕ))
    → Held P t.seq_sent a
    → Both P (send_packets t a ps)
unfolding send_packets
send_packets-Both P t a [] v = v
send_packets-Both P t a (p ∷ ps) v =
    send_packets-Both P (send_packet t a p).0 (send_packet t a p).1 ps (send_packet-Both P t a p v)

drain_audio-Both :
    (P : List ℕ × List ℕ → Type 0) (t : StreamThread) (a : Shared) (audio : Audio)
    → Held P t.seq_sent a
    → Both P (drain_audio t a audio)
unfolding drain_audio
drain_audio-Both P t a audio v = elim (Option-cases audio.answer) [
  | inl e ↦ ground (arith, e)
  | inr (ps, e) ↦
      ground (arith, e, send_packets-Both P t (record a { packets = a.packets ++ ps }) ps v)
]

open_thread-Both :
    (P : List ℕ × List ℕ → Type 0) (a : Shared) (encoder : Bool) (asc : Option (List ℕ))
    → Held P false a
    → Both P (open_thread a encoder asc)
unfolding open_thread announce_aac
open_thread-Both P a encoder none v = v
open_thread-Both P a encoder (some bytes) v =
    publish_audio-Held P false
      (record a { stats = record a.stats { encoder_ready = encoder || a.stats.encoder_ready } })
      (aac_sequence_header bytes) 0 v

abbrev sent_by : Option StreamThread → Bool
sent_by none = false
sent_by (some t) = t.seq_sent

abbrev Kept : (List ℕ × List ℕ → Type 0) → Feed → Type 0
Kept P f = Held P (sent_by f.thread) f.shared × All (Given P) f.channel

start-Kept :
    (P : List ℕ × List ℕ → Type 0) (f : Feed) (encoder : Bool) (asc : Option (List ℕ))
    → Kept P f
    → Kept P (start f encoder asc)
unfolding start
start-Kept P f encoder asc (v, w) = elim (Option-cases f.thread) [
  | inl e ↦
      rw (e, start)
        (open_thread-Both P f.shared encoder asc (subst (λ t. Held P (sent_by t) f.shared) e v), w)
  | inr (t, e) ↦ rw (e, start) (v, w)
]

turn_of-Kept :
    (P : List ℕ × List ℕ → Type 0) (f : Feed) (t : StreamThread) (gone : Bool) (audio : Audio)
    → f.thread ≡ some t
    → Kept P f
    → Kept P (turn_of f t gone audio)
unfolding turn_of leave
turn_of-Kept P f t gone audio h (v, k) = elim (Bool-cases f.stop) [
  | inl e ↦ rw (e, turn_of) (v, tt)
  | inr e ↦ elim (List-cases f.channel) [
    | inl c ↦ elim (Bool-cases gone) [
      | inl g ↦ rw (e, c, g, turn_of) (v, tt)
      | inr g ↦ rw (e, c, g, turn_of) (drain_audio-Both P t f.shared audio w, k)
    ]
    | inr (s, rest, c) ↦
        let q = subst (λ ss. All (Given P) ss) c k in
        rw (e, c, turn_of)
          (drain_audio-Both P _ _ audio (encode_video-Both P t f.shared s q.0 w), q.1)
  ]
]
  where
    w : Held P t.seq_sent f.shared
    w = subst (λ t. Held P (sent_by t) f.shared) h v

turn-Kept :
    (P : List ℕ × List ℕ → Type 0) (f : Feed) (gone : Bool) (audio : Audio)
    → Kept P f
    → Kept P (turn f gone audio)
unfolding turn
turn-Kept P f gone audio v = elim (Option-cases f.thread) [
  | inl e ↦ rw (e, turn) v
  | inr (t, e) ↦ elim (Bool-cases (is_done f.phase)) [
    | inl d ↦ rw (e, d, turn) v
    | inr d ↦ rw (e, d, turn) (turn_of-Kept P f t gone audio e v)
  ]
]

-- A surface that is handed off has parameter sets that the predicate holds of.
abbrev Gives : (List ℕ × List ℕ → Type 0) → Event → Type 0
Gives P (hands_off s drawn) = Given P s
Gives P (opens encoder asc) = Unit {0}
Gives P (turns gone audio) = Unit {0}
Gives P stops = Unit {0}

All-Given-snoc :
    (P : List ℕ × List ℕ → Type 0) (ss : List Surface) (s : Surface)
    → All (Given P) ss
    → Given P s
    → All (Given P) (ss ++ (s ∷ []))
All-Given-snoc P [] s w h = (h, tt)
All-Given-snoc P (x ∷ ss) s w h = (w.0, All-Given-snoc P ss s w.1 h)

hand_off-Kept :
    (P : List ℕ × List ℕ → Type 0) (f : Feed) (s : Surface) (drawn : Bool)
    → Given P s
    → Kept P f
    → Kept P (hand_off_stream_surface f s drawn).1
unfolding hand_off_stream_surface drop_frame
hand_off-Kept P f s drawn g (v, w) = elim (Bool-cases drawn) [
  | inr e ↦ rw e (v, w)
  | inl e ↦ rw e (elim (Bool-cases (is_done f.phase)) [
    | inl d ↦ rw d (v, w)
    | inr d ↦ rw d (elim (Bool-cases (ltb (length f.channel) stream_channel_bound)) [
      | inl l ↦ rw l (v, All-Given-snoc P f.channel s w g)
      | inr l ↦ rw l (v, w)
    ])
  ])
]

step-Kept :
    (P : List ℕ × List ℕ → Type 0) (f : Feed) (e : Event) → Gives P e → Kept P f → Kept P (step f e)
unfolding step
step-Kept P f (hands_off s drawn) g v = hand_off-Kept P f s drawn g v
step-Kept P f (opens encoder asc) g v = start-Kept P f encoder asc v
step-Kept P f (turns gone audio) g v = turn-Kept P f gone audio v
step-Kept P f stops g v = v

run-Kept :
    (P : List ℕ × List ℕ → Type 0) (f : Feed) (es : List Event)
    → All (Gives P) es
    → Kept P f
    → Kept P (run f es)
unfolding run
run-Kept P f [] g v = v
run-Kept P f (e ∷ es) g v = run-Kept P (step f e) es g.1 (step-Kept P f e g.0 v)

-- The encoder had these parameter sets after the encode of some surface that was handed off.
abbrev pub GivenIn : List Event → List ℕ × List ℕ → Type 0
GivenIn [] sets = true ≡ false
GivenIn (hands_off s drawn ∷ es) sets = (s.parameter_sets ≡ some sets) ⊎ GivenIn es sets
GivenIn (opens encoder asc ∷ es) sets = GivenIn es sets
GivenIn (turns gone audio ∷ es) sets = GivenIn es sets
GivenIn (stops ∷ es) sets = GivenIn es sets

All-Gives :
    (P : List ℕ × List ℕ → Type 0) (es : List Event)
    → ((sets : List ℕ × List ℕ) → GivenIn es sets → P sets)
    → All (Gives P) es
All-Gives P [] h = tt
All-Gives P (hands_off s drawn ∷ es) h =
    (λ sets g. h sets (inl g), All-Gives P es (λ sets g. h sets (inr g)))
All-Gives P (opens encoder asc ∷ es) h = (tt, All-Gives P es h)
All-Gives P (turns gone audio ∷ es) h = (tt, All-Gives P es h)
All-Gives P (stops ∷ es) h = (tt, All-Gives P es h)

-- Whatever the loop, the codecs and the publisher's task do, and whatever is shed: of the video frames that a stream
-- gives its publisher, the first is a sequence header of parameter sets that the encoder had after the encode of a
-- surface that was handed off, and the others are none; and that header is the one that the publisher keeps for its
-- redials, none being kept before.
pub run-Announced :
    (task : List (List TaskCall)) (es : List Event)
    → let a = (run (opened task zeroed) es).shared in
      Announced (GivenIn es) (videos a.offered) a.publisher.cached_video_seq
unfolding opened
run-Announced task es =
    (run-Kept (GivenIn es) (opened task zeroed) es (All-Gives (GivenIn es) es (λ sets g. g))
      (record { announced = refl; begun = refl }, tt)).0.announced
