-- ===== src/Stream/Thread.antt =====
-- The stream thread, stream.rs: opening its encoders, encoding a surface, draining the tap.
use nbe.Prelude.{
  ℕ, ◌+◌, ◌-◌, Bool, true, false, ◌||◌, Option, none, some, List, [], ◌∷◌, ◌++◌, length, ltb, ◌==◌,
  if◌then◌else◌,
}
use nbe.Mp4.{EncodedUnit}
use nbe.Publisher.{Publisher, PublishFrame, video_frame, audio_frame, send, drain_stale}
use nbe.Publisher.Sequential.{receive, close}
use nbe.Record.{
  SkipPath, no_encoder, draw_wait, refused, before_first, no_sequence_header, shed, count,
}
use nbe.Stream.{
  EncodeSession, StreamThread, TaskCall, receives, drains, ends, Shared, Surface, Audio,
}
use nbe.Stream.Flv.{
  media_ts_ms, audio_ts_ms, flv_video_tag, flv_audio_tag, aac_sequence_header, avc_sequence_header,
}

abbrev pub aac_priming_trim_packets : ℕ
aac_priming_trim_packets = 2

unfoldable pub act : Publisher → TaskCall → Publisher
act p receives = receive p
act p drains = drain_stale p
act p ends = close p

unfoldable pub acts : Publisher → List TaskCall → Publisher
acts p [] = p
acts p (c ∷ cs) = acts (act p c) cs

-- The publisher's task runs up to the coming send.
unfoldable pub catch_up : Shared → Shared
catch_up a = elim a.task [
  | [] ↦ a
  | calls ∷ rest ↦ record a { publisher = acts a.publisher calls; task = rest }
]

-- `try_publish_video` and `try_publish_audio`.
unfoldable pub publish : Shared → PublishFrame → Bool × Shared
unfolding catch_up
publish a f =
    let b : Shared = catch_up a in
    let (went, p) = send b.publisher f in
    (went, record b { publisher = p; offered = b.offered ++ (f ∷ []) })

unfoldable pub drop_frame : Shared → SkipPath → ℕ → Shared
drop_frame a path n = record a { skipped = count a.skipped path n }

-- What follows an open of the AAC converter that gives a configuration: the header, at 0 ms.
unfoldable pub announce_aac : Shared → List ℕ → Shared
announce_aac a asc =
    let b : Shared = (publish a (audio_frame (aac_sequence_header asc) 0)).1 in
    record b { stats = record b.stats { aac_ready = true } }

-- `open`, on whether the encoder opens and on the converter's configuration, if it opens and has one.
unfoldable pub open_thread : Shared → Bool → Option (List ℕ) → StreamThread × Shared
open_thread a encoder asc =
    let b : Shared = record a {
      stats = record a.stats { encoder_ready = encoder || a.stats.encoder_ready };
    } in
    (
      record {
        encoder =
            if encoder then some (record { frame_index = 0; last_pts_index = none }) else none;
        aac = elim asc [ none ↦ false | some bytes ↦ true ];
        base_frame = none;
        seq_sent = false;
        priming_to_skip = aac_priming_trim_packets;
        audio_packets = 0;
      },
      elim asc [ none ↦ b | some bytes ↦ announce_aac b bytes ],
    )

abbrev is_some : Option (List EncodedUnit) → Bool
is_some none = false
is_some (some units) = true

abbrev pub follows : ℕ → Option ℕ → Bool
follows pts_index none = true
follows pts_index (some last) = ltb last pts_index

-- What `encode_pixel_buffer_at` submits, whether it is taken or not.
abbrev pub submission : EncodeSession → ℕ → Option (List EncodedUnit) → List (ℕ × Bool × Bool)
submission enc pts_index answer =
    if follows pts_index enc.last_pts_index
    then (pts_index, enc.frame_index == 0, is_some answer) ∷ []
    else []

-- `encode_pixel_buffer_at`: the units and the session.
unfoldable pub encode_pixel_buffer_at :
    EncodeSession → ℕ → Option (List EncodedUnit) → Option (List EncodedUnit × EncodeSession)
encode_pixel_buffer_at enc pts_index none = none
encode_pixel_buffer_at enc pts_index (some units) =
    if follows pts_index enc.last_pts_index
    then some
        (units, record enc { frame_index = enc.frame_index + 1; last_pts_index = some pts_index })
    else none

-- The body of the loop over the units, and the loop.
unfoldable pub publish_unit : Shared → EncodedUnit → Shared
unfolding publish drop_frame
publish_unit a u =
    let (went, b) = publish a (video_frame (flv_video_tag u) (media_ts_ms u.pts)) in
    if went
    then record b {
      stats = record b.stats { video_units_published = b.stats.video_units_published + 1 };
    }
    else drop_frame b shed 1

unfoldable pub publish_units : Shared → List EncodedUnit → Shared
unfolding publish_unit
publish_units a [] = a
publish_units a (u ∷ us) = publish_units (publish_unit a u) us

-- The sequence header, before the first units.
unfoldable pub publish_header : Shared → List ℕ → ℕ → Shared
unfolding publish drop_frame
publish_header a seq pts =
    let (went, b) = publish a (video_frame seq (media_ts_ms pts)) in
    if went then b else drop_frame b shed 1

abbrev pub sequence_header : Option (List ℕ × List ℕ) → Option (List ℕ)
sequence_header none = none
sequence_header (some (sps, pps)) = avc_sequence_header sps pps

-- `encode_video` from the units on, of an encode that was not refused.
unfoldable pub send_units :
    StreamThread → Shared → List EncodedUnit → Option (List ℕ × List ℕ) → StreamThread × Shared
unfolding publish_units publish_header drop_frame
send_units t a [] sets = (t, a)
send_units t a (u ∷ us) sets =
    if t.seq_sent then (t, publish_units a (u ∷ us)) else elim (sequence_header sets) [
      | none ↦ (t, drop_frame a no_sequence_header (length (u ∷ us)))
      | some seq ↦
          (record t { seq_sent = true }, publish_units (publish_header a seq u.pts) (u ∷ us))
    ]

abbrev pub get_or_insert : Option ℕ → ℕ → ℕ
get_or_insert none v = v
get_or_insert (some old) v = old

-- `encode_video` from the encode on, of a surface whose draw is done.
unfoldable pub encode_drawn :
    StreamThread → Shared → EncodeSession → ℕ → Surface → StreamThread × Shared
unfolding encode_pixel_buffer_at send_units drop_frame
encode_drawn t a enc pts_index s =
    let submitted : List (ℕ × Bool × Bool) = a.submitted ++ submission enc pts_index s.answer in
    elim (encode_pixel_buffer_at enc pts_index s.answer) [
      | none ↦ (t, drop_frame (record a { submitted = submitted }) refused 1)
      | some (units, enc') ↦
          send_units (record t { encoder = some enc' })
            (record a {
              submitted = submitted;
              stats = record a.stats { video_frames_encoded = a.stats.video_frames_encoded + 1 };
            })
            units s.parameter_sets
    ]

unfoldable pub encode_video : StreamThread → Shared → Surface → StreamThread × Shared
unfolding encode_drawn drop_frame
encode_video t a s = elim t.encoder [
  | none ↦ (t, drop_frame a no_encoder 1)
  | some enc ↦
      let base : ℕ = get_or_insert t.base_frame s.frame in
      let t' : StreamThread = record t { base_frame = some base } in
      if ltb s.frame base
      then (t', drop_frame a before_first 1)
      else if s.drawn
      then encode_drawn t' a enc (s.frame - base) s
      else (t', drop_frame a draw_wait 1)
]

-- The end of the loop over the packets: a packet goes to the publisher.
unfoldable pub publish_packet : Shared → PublishFrame → Shared
unfolding publish
publish_packet a f =
    let (went, b) = publish a f in
    if went
    then record b {
      stats = record b.stats { audio_packets_published = b.stats.audio_packets_published + 1 };
    }
    else b

-- The body of the loop, and the loop.
unfoldable pub send_packet : StreamThread → Shared → List ℕ → StreamThread × Shared
unfolding publish_packet
send_packet t a bytes =
    if ltb 0 t.priming_to_skip then (record t { priming_to_skip = t.priming_to_skip - 1 }, a) else (
      record t { audio_packets = t.audio_packets + 1 },
      publish_packet a (audio_frame (flv_audio_tag bytes) (audio_ts_ms t.audio_packets)),
    )

unfoldable pub send_packets : StreamThread → Shared → List (List ℕ) → StreamThread × Shared
unfolding send_packet
send_packets t a [] = (t, a)
send_packets t a (p ∷ ps) = let (t', b) = send_packet t a p in send_packets t' b ps

unfoldable pub drain_audio : StreamThread → Shared → Audio → StreamThread × Shared
unfolding send_packets
drain_audio t a audio = elim audio.pcm [
  | [] ↦ (t, a)
  | sample ∷ samples ↦
      if t.aac
      then elim audio.answer [
        | none ↦ (record t { aac = false }, a)
        | some packets ↦ send_packets t (record a { packets = a.packets ++ packets }) packets
      ]
      else (t, a)
]
