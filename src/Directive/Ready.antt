-- ===== src/Directive/Ready.antt =====
-- The timers that would report the end of an item, directive.rs, and what a wake makes of them.
use nbe.Prelude.{
  ℕ, zero, suc, ◌+◌, ◌≤◌, ◌≡◌, sym, subst, arith, Bool, true, false, ◌&&◌, Bool-cases, inl, inr,
  none, some, Option-cases, List, [], ◌∷◌, ◌++◌, ◌==◌, if◌then◌else◌,
}
use Prim.Native.String.{String}
use text.Mathlib.Text.{◌==◌ as str_eq}
use nbe.Directive.{
  Engine, EngineFrame, applied_state_version, item_end, Timer, show_start, show_stop, record_stop,
  stream_stop, take, fallback, overlay, marker_add, recall, ignored,
}
use nbe.Directive.Takes.{is_current}
use nbe.Directive.Apply.{is_running, report_end, take_out, Event, directive, wakes, wake}
use nbe.Directive.Ends.{ends_of}

-- Neither a take nor a recall nor a stop of the show.
abbrev pub keeps : Event → Bool
keeps (directive now version (take r p)) = false
keeps (directive now version (recall t p)) = false
keeps (directive now version (show_stop q f a b)) = false
keeps (directive now version show_start) = true
keeps (directive now version (record_stop r)) = true
keeps (directive now version (stream_stop r)) = true
keeps (directive now version fallback) = true
keeps (directive now version (overlay s i f)) = true
keeps (directive now version (marker_add n t)) = true
keeps (directive now version ignored) = true
keeps (wakes i) = true

abbrev pub all_keep : List Event → Bool
all_keep [] = true
all_keep (x ∷ xs) = keeps x && all_keep xs

abbrev pub is_for : String → ℕ → Timer → ℕ
is_for r g t = if str_eq r t.item_ref && g == t.generation then 1 else 0

-- How many timers would report the end of an item and a generation.
abbrev pub timers_for : String → ℕ → List Timer → ℕ
timers_for r g [] = 0
timers_for r g (t ∷ ts) = is_for r g t + timers_for r g ts

abbrev is_end_for : String → ℕ → EngineFrame → ℕ
is_end_for r g (applied_state_version v) = 0
is_end_for r g (item_end i h) = if str_eq r i && g == h then 1 else 0

-- How many reports name an item, for a generation.
abbrev pub ends_for : String → ℕ → List EngineFrame → ℕ
ends_for r g [] = 0
ends_for r g (f ∷ fs) = is_end_for r g f + ends_for r g fs

pub ends_for-append :
    (r : String) (g : ℕ) (fs : List EngineFrame) (f : EngineFrame)
    → ends_for r g (fs ++ (f ∷ [])) ≡ ends_for r g fs + is_end_for r g f
ends_for-append r g [] f = omega arith
ends_for-append r g (x ∷ fs) f = omega (arith, ends_for-append r g fs f)

pub ends_for-le : (r : String) (g : ℕ) (fs : List EngineFrame) → ends_for r g fs ≤ ends_of g fs
ends_for-le r g [] = omega arith
ends_for-le r g (applied_state_version v ∷ fs) = omega (arith, ends_for-le r g fs)
ends_for-le r g (item_end i h ∷ fs) = ground (arith, ends_for-le r g fs)

pub timers_for-append :
    (r : String) (g : ℕ) (ts : List Timer) (t : Timer)
    → timers_for r g (ts ++ (t ∷ [])) ≡ timers_for r g ts + is_for r g t
timers_for-append r g [] t = omega arith
timers_for-append r g (x ∷ ts) t = omega (arith, timers_for-append r g ts t)

take_out-timers_for :
    (r : String) (g : ℕ) (ts : List Timer) (i : ℕ) (p : Timer × List Timer)
    → take_out ts i ≡ some p
    → timers_for r g ts ≡ is_for r g p.0 + timers_for r g p.1
take_out-timers_for r g [] i p h = absurd (ground arith)
take_out-timers_for r g (t ∷ ts) zero p h = ground arith
take_out-timers_for r g (t ∷ ts) (suc i) p h = elim (Option-cases (take_out ts i)) [
  | inl n ↦ absurd (ground arith)
  | inr (q, s) ↦ let k = take_out-timers_for r g ts i q s in ground arith
]

-- The item of a generation plays on a running clock, and its end is reported or pending.
pub record IsReady (r : String) (g : ℕ) (e : Engine) : Type 0 where
  pub running : is_running e.clock ≡ true
  pub item : e.playing.item ≡ some r
  pub generation : e.playing.generation ≡ g
  pub due : 1 ≤ timers_for r g e.pending + ends_for r g e.outgoing

report_end-IsReady :
    (r : String) (g : ℕ) (e : Engine) (t : Timer) (ts : List Timer)
    → timers_for r g e.pending ≡ is_for r g t + timers_for r g ts
    → IsReady r g e
    → IsReady r g (report_end (record e { pending = ts }) t)
unfolding report_end is_current
report_end-IsReady r g e t ts k h =
    elim (Bool-cases (is_running e.clock && is_current e.playing t.item_ref t.generation)) [
      | inl b ↦ record {
        running = ground (arith, b, h.running);
        item = ground (arith, b, h.item);
        generation = ground (arith, b, h.generation);
        due = ground (
          arith,
          b,
          k,
          h.due,
          h.item,
          h.generation,
          h.running,
          ends_for-append r g e.outgoing (item_end t.item_ref t.generation),
        );
      }
      | inr b ↦ record {
        running = ground (arith, b, h.running);
        item = ground (arith, b, h.item);
        generation = ground (arith, b, h.generation);
        due = ground (arith, b, k, h.due, h.item, h.generation, h.running);
      }
    ]

pub wake-IsReady :
    (r : String) (g : ℕ) (e : Engine) (i : ℕ) → IsReady r g e → IsReady r g (wake e i)
unfolding wake
wake-IsReady r g e i h = elim (Option-cases (take_out e.pending i)) [
  | inl n ↦ record {
    running = ground (arith, n, h.running);
    item = ground (arith, n, h.item);
    generation = ground (arith, n, h.generation);
    due = ground (arith, n, h.due);
  }
  | inr (p, s) ↦
      subst
        (λ o.
          IsReady r g (elim o [ none ↦ e | some p ↦ report_end (record e { pending = p.1 }) p.0 ]))
        (sym s) (report_end-IsReady r g e p.0 p.1 (take_out-timers_for r g e.pending i p s) h)
]
