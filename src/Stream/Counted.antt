-- ===== src/Stream/Counted.antt =====
-- The frames that the stream thread accounts for, stream.rs.
use nbe.Prelude.{
  ℕ, suc, ◌+◌, ◌≡◌, refl, ◌∙◌, arith, Bool, ◌||◌, Bool-cases, inl, inr, Option, none, some,
  Option-cases, List, [], ◌∷◌, ◌++◌, ltb,
}
use nbe.Mp4.{EncodedUnit}
use nbe.Publisher.{PublishFrame, video_frame, audio_frame}
use nbe.Stream.Flv.{flv_video_tag, flv_audio_tag, aac_sequence_header, media_ts_ms, audio_ts_ms}
use nbe.Record.{no_draw, queue_full, no_encoder, draw_wait, refused, before_first, count}
use nbe.Stream.{StreamThread, EncodeSession, Shared, Surface, Audio}
use nbe.Stream.Thread.{
  catch_up, publish, drop_frame, announce_aac, open_thread, get_or_insert, encode_pixel_buffer_at,
  publish_unit, publish_units, publish_header, sequence_header, send_units, encode_drawn,
  encode_video, publish_packet, send_packet, send_packets, drain_audio,
}

-- The frames that were encoded, and those given up at a path that counts frames.
abbrev pub accounted : Shared → ℕ
accounted a =
    a.stats.video_frames_encoded
    + a.skipped.paths no_draw
    + a.skipped.paths queue_full
    + a.skipped.paths no_encoder
    + a.skipped.paths before_first
    + a.skipped.paths draw_wait
    + a.skipped.paths refused

publish_keeps :
    (a : Shared) (f : PublishFrame)
    → ((publish a f).1.skipped ≡ a.skipped) × ((publish a f).1.stats ≡ a.stats)
unfolding publish catch_up
publish_keeps a f = ground arith

accounted-publish : (a : Shared) (f : PublishFrame) → accounted (publish a f).1 ≡ accounted a
accounted-publish a f = let (s, t) = publish_keeps a f in rw (s, t) refl

accounted-publish_unit : (a : Shared) (u : EncodedUnit) → accounted (publish_unit a u) ≡ accounted a
unfolding publish_unit drop_frame count
accounted-publish_unit a u =
    let f : PublishFrame = video_frame (flv_video_tag u) (media_ts_ms u.pts) in
    ground (arith, publish_keeps a f)

accounted-publish_units :
    (a : Shared) (us : List EncodedUnit) → accounted (publish_units a us) ≡ accounted a
unfolding publish_units
accounted-publish_units a [] = refl
accounted-publish_units a (u ∷ us) =
    accounted-publish_units (publish_unit a u) us ∙ accounted-publish_unit a u

accounted-publish_header :
    (a : Shared) (seq : List ℕ) (pts : ℕ) → accounted (publish_header a seq pts) ≡ accounted a
unfolding publish_header drop_frame count
accounted-publish_header a seq pts =
    ground (arith, publish_keeps a (video_frame seq (media_ts_ms pts)))

accounted-send_units :
    (t : StreamThread) (a : Shared) (us : List EncodedUnit) (sets : Option (List ℕ × List ℕ))
    → accounted (send_units t a us sets).1 ≡ accounted a
unfolding send_units drop_frame count
accounted-send_units t a [] sets = refl
accounted-send_units t a (u ∷ us) sets = elim (Bool-cases t.seq_sent) [
  | inl e ↦ rw e (accounted-publish_units a (u ∷ us))
  | inr e ↦ elim (Option-cases (sequence_header sets)) [
    | inl n ↦ rw (e, n) refl
    | inr (seq, n) ↦
        rw (e, n)
          (accounted-publish_units (publish_header a seq u.pts) (u ∷ us)
            ∙ accounted-publish_header a seq u.pts)
  ]
]

accounted-encode_drawn :
    (t : StreamThread) (a : Shared) (enc : EncodeSession) (i : ℕ) (s : Surface)
    → accounted (encode_drawn t a enc i s).1 ≡ suc (accounted a)
unfolding encode_drawn drop_frame count
accounted-encode_drawn t a enc i s = elim (Option-cases (encode_pixel_buffer_at enc i s.answer)) [
  | inl e ↦ rw (e, encode_drawn) (omega arith)
  | inr ((units, enc'), e) ↦
      rw (e, encode_drawn) (accounted-send_units _ _ units s.parameter_sets ∙ omega arith)
]

pub accounted-encode_video :
    (t : StreamThread) (a : Shared) (s : Surface)
    → accounted (encode_video t a s).1 ≡ suc (accounted a)
unfolding encode_video drop_frame count
accounted-encode_video t a s = elim (Option-cases t.encoder) [
  | inl e ↦ rw e (omega arith)
  | inr (enc, e) ↦ rw e (elim (Bool-cases (ltb s.frame (get_or_insert t.base_frame s.frame))) [
    | inl b ↦ rw b (omega arith)
    | inr b ↦ rw b (elim (Bool-cases s.drawn) [
      | inl d ↦ rw d (accounted-encode_drawn _ a enc _ s)
      | inr d ↦ rw d (omega arith)
    ])
  ])
]

accounted-send_packet :
    (t : StreamThread) (a : Shared) (p : List ℕ) → accounted (send_packet t a p).1 ≡ accounted a
unfolding send_packet publish_packet
accounted-send_packet t a p =
    ground (arith, publish_keeps a (audio_frame (flv_audio_tag p) (audio_ts_ms t.audio_packets)))

accounted-send_packets :
    (t : StreamThread) (a : Shared) (ps : List (List ℕ))
    → accounted (send_packets t a ps).1 ≡ accounted a
unfolding send_packets
accounted-send_packets t a [] = refl
accounted-send_packets t a (p ∷ ps) =
    accounted-send_packets (send_packet t a p).0 (send_packet t a p).1 ps
    ∙ accounted-send_packet t a p

pub accounted-drain_audio :
    (t : StreamThread) (a : Shared) (audio : Audio)
    → accounted (drain_audio t a audio).1 ≡ accounted a
unfolding drain_audio
accounted-drain_audio t a audio = elim (Option-cases audio.answer) [
  | inl e ↦ ground (arith, e)
  | inr (ps, e) ↦
      ground (arith, e, accounted-send_packets t (record a { packets = a.packets ++ ps }) ps)
]

pub accounted-open_thread :
    (a : Shared) (encoder : Bool) (asc : Option (List ℕ))
    → accounted (open_thread a encoder asc).1 ≡ accounted a
unfolding open_thread announce_aac
accounted-open_thread a encoder none = refl
accounted-open_thread a encoder (some bytes) = ground (
  arith,
  publish_keeps
      (record a { stats = record a.stats { encoder_ready = encoder || a.stats.encoder_ready } })
      (audio_frame (aac_sequence_header bytes) 0),
)
