-- ===== src/Stream/Cached.antt =====
-- A frame offered to the publisher, in the order of the video frames and in the cached header, stream.rs and rtmp.rs.
use nbe.Prelude.{
  append-nil, ℕ, ◌≡◌, refl, ◌∙◌, ap, arith, Bool, true, false, List-cases, inl, inr, Option, none,
  some, List, [], ◌∷◌, ◌++◌, All, ◌==◌, if◌then◌else◌,
}
use nbe.Mp4.{EncodedUnit}
use nbe.Rtmp.{msg_video}
use nbe.Publisher.{
  Publisher, PublishFrame, video_frame, audio_frame, is_seq, cache, send, recv, debit, drain_stale,
}
use nbe.Publisher.Sequential.{receive, close}
use nbe.Stream.{Shared, TaskCall, receives, drains, ends}
use nbe.Stream.Flv.{flv_video_tag, media_ts_ms, avc_sequence_header}
use nbe.Stream.Thread.{
  act, acts, catch_up, publish, drop_frame, publish_unit, publish_units, publish_header,
}

-- The video frames among those offered to the publisher.
abbrev pub videos : List PublishFrame → List PublishFrame
videos [] = []
videos (f ∷ fs) = let rest = videos fs in if f.kind == msg_video then f ∷ rest else rest

-- A header of parameter sets that some predicate holds of.
abbrev pub HasSets : (List ℕ × List ℕ → Type 0) → List ℕ → Type 0
HasSets P payload =
    (sps : List ℕ) × (pps : List ℕ) × P (sps, pps) × (avc_sequence_header sps pps ≡ some payload)

-- Every video frame but the first is no sequence header; the first is one, and it is the one in the cache.
abbrev pub Announced : (List ℕ × List ℕ → Type 0) → List PublishFrame → Option (ℕ × List ℕ) → Type 0
Announced P [] cached = cached ≡ none
Announced P (h ∷ us) cached =
    (cached ≡ some (msg_video, h.payload))
    × HasSets P h.payload
    × All (λ u. is_seq 0x17 u.payload ≡ false) us

abbrev pub any : List PublishFrame → Bool
any [] = false
any (f ∷ fs) = true

-- Whether the header went, the video frames offered, and the cache.
pub record Inv (P : List ℕ × List ℕ → Type 0) (seq_sent : Bool) (vs : List PublishFrame)
    (cached : Option (ℕ × List ℕ)) : Type 0 where
  pub announced : Announced P vs cached
  pub begun : any vs ≡ seq_sent

abbrev pub Held : (List ℕ × List ℕ → Type 0) → Bool → Shared → Type 0
Held P seq_sent a = Inv P seq_sent (videos a.offered) a.publisher.cached_video_seq

videos-append :
    (fs : List PublishFrame) (f : PublishFrame)
    → videos (fs ++ (f ∷ [])) ≡ videos fs ++ (if f.kind == msg_video then f ∷ [] else [])
videos-append [] f = ground arith
videos-append (g ∷ fs) f = ground (arith, videos-append fs f)

cached-act : (p : Publisher) (c : TaskCall) → (act p c).cached_video_seq ≡ p.cached_video_seq
unfolding act receive recv debit drain_stale close
cached-act p receives = ground arith
cached-act p drains = ground arith
cached-act p ends = refl

cached-acts :
    (p : Publisher) (cs : List TaskCall) → (acts p cs).cached_video_seq ≡ p.cached_video_seq
unfolding acts
cached-acts p [] = refl
cached-acts p (c ∷ cs) = cached-acts (act p c) cs ∙ cached-act p c

cached-catch_up :
    (a : Shared) → (catch_up a).publisher.cached_video_seq ≡ a.publisher.cached_video_seq
unfolding catch_up
cached-catch_up a = elim (List-cases a.task) [
  | inl e ↦ rw e refl
  | inr (cs, rest, e) ↦ rw e (cached-acts a.publisher cs)
]

cached-send :
    (p : Publisher) (f : PublishFrame)
    → (send p f).1.cached_video_seq ≡ cache msg_video 0x17 f p.cached_video_seq
unfolding send
cached-send p f = ground arith

cached-publish :
    (a : Shared) (f : PublishFrame)
    → (publish a f).1.publisher.cached_video_seq
      ≡ cache msg_video 0x17 f a.publisher.cached_video_seq
unfolding publish
cached-publish a f =
    cached-send (catch_up a).publisher f ∙ ap (cache msg_video 0x17 f) (cached-catch_up a)

offered-publish : (a : Shared) (f : PublishFrame) → (publish a f).1.offered ≡ a.offered ++ (f ∷ [])
unfolding publish catch_up
offered-publish a f = ground arith

-- A frame goes into the video frames and into the cache, whatever becomes of it.
publish-Held :
    (P : List ℕ × List ℕ → Type 0) (c : Bool) (a : Shared) (f : PublishFrame)
    → Inv P c
        (videos a.offered ++ (if f.kind == msg_video then f ∷ [] else []))
        (cache msg_video 0x17 f a.publisher.cached_video_seq)
    → Held P c (publish a f).1
publish-Held P c a f v = rw (offered-publish a f, videos-append a.offered f, cached-publish a f) v

pub publish_audio-Held :
    (P : List ℕ × List ℕ → Type 0) (b : Bool) (a : Shared) (bytes : List ℕ) (ts : ℕ)
    → Held P b a
    → Held P b (publish a (audio_frame bytes ts)).1
publish_audio-Held P b a bytes ts v = publish-Held P b a (audio_frame bytes ts) (go _ _ v)
  where
    go :
        (vs : List PublishFrame) (cached : Option (ℕ × List ℕ))
        → Inv P b vs cached
        → Inv P b (vs ++ []) (cache msg_video 0x17 (audio_frame bytes ts) cached)
    go vs none w = rw append-nil w
    go vs (some x) w = rw append-nil w

All-snoc :
    (us : List PublishFrame) (u : PublishFrame)
    → All (λ u. is_seq 0x17 u.payload ≡ false) us
    → is_seq 0x17 u.payload ≡ false
    → All (λ u. is_seq 0x17 u.payload ≡ false) (us ++ (u ∷ []))
All-snoc [] u w h = (h, tt)
All-snoc (v ∷ us) u w h = (w.0, All-snoc us u w.1 h)

-- A unit after the header.
publish_video-Held :
    (P : List ℕ × List ℕ → Type 0) (a : Shared) (bytes : List ℕ) (ts : ℕ)
    → is_seq 0x17 bytes ≡ false
    → Held P true a
    → Held P true (publish a (video_frame bytes ts)).1
publish_video-Held P a bytes ts h v = publish-Held P true a f (go _ _ v)
  where
    f : PublishFrame
    f = video_frame bytes ts

    go :
        (vs : List PublishFrame) (cached : Option (ℕ × List ℕ))
        → Inv P true vs cached
        → Inv P true (vs ++ (f ∷ [])) (cache msg_video 0x17 f cached)
    go [] cached w = absurd (ground (arith, w.begun))
    go (x ∷ us) none w = absurd (ground (arith, w.announced.0))
    go (x ∷ us) (some y) w = record {
      announced = (w.announced.0, w.announced.1, All-snoc us f w.announced.2 h);
      begun = refl;
    }

header_is_seq :
    (sps pps seq : List ℕ) → avc_sequence_header sps pps ≡ some seq → is_seq 0x17 seq ≡ true
unfolding avc_sequence_header
header_is_seq sps pps seq e = ground (arith, e)

-- The header, before any unit.
publish_seq-Held :
    (P : List ℕ × List ℕ → Type 0) (a : Shared) (sps pps seq : List ℕ) (ts : ℕ)
    → P (sps, pps)
    → avc_sequence_header sps pps ≡ some seq
    → Held P false a
    → Held P true (publish a (video_frame seq ts)).1
publish_seq-Held P a sps pps seq ts given e v = publish-Held P true a f (go _ _ v)
  where
    f : PublishFrame
    f = video_frame seq ts

    go :
        (vs : List PublishFrame) (cached : Option (ℕ × List ℕ))
        → Inv P false vs cached
        → Inv P true (vs ++ (f ∷ [])) (cache msg_video 0x17 f cached)
    go [] none w = record {
      announced = (rw (header_is_seq sps pps seq e) refl, (sps, pps, given, e), tt);
      begun = refl;
    }
    go [] (some y) w = absurd (ground (arith, w.announced))
    go (x ∷ us) cached w = absurd (ground (arith, w.begun))

tag_is_unit : (u : EncodedUnit) → is_seq 0x17 (flv_video_tag u) ≡ false
unfolding flv_video_tag
tag_is_unit u = ground arith

publish_unit-Held :
    (P : List ℕ × List ℕ → Type 0) (a : Shared) (u : EncodedUnit)
    → Held P true a
    → Held P true (publish_unit a u)
unfolding publish_unit drop_frame
publish_unit-Held P a u v =
    ground (arith, publish_video-Held P a (flv_video_tag u) (media_ts_ms u.pts) (tag_is_unit u) v)

pub publish_units-Held :
    (P : List ℕ × List ℕ → Type 0) (a : Shared) (us : List EncodedUnit)
    → Held P true a
    → Held P true (publish_units a us)
unfolding publish_units
publish_units-Held P a [] v = v
publish_units-Held P a (u ∷ us) v =
    publish_units-Held P (publish_unit a u) us (publish_unit-Held P a u v)

pub publish_header-Held :
    (P : List ℕ × List ℕ → Type 0) (a : Shared) (sps pps seq : List ℕ) (pts : ℕ)
    → P (sps, pps)
    → avc_sequence_header sps pps ≡ some seq
    → Held P false a
    → Held P true (publish_header a seq pts)
unfolding publish_header drop_frame
publish_header-Held P a sps pps seq pts given e v =
    ground (arith, publish_seq-Held P a sps pps seq (media_ts_ms pts) given e v)
