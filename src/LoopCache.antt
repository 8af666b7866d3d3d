-- ===== src/LoopCache.antt =====
-- The loop cache's budget, crates/nbe-core/src/loop_cache.rs. A frame's cost in MiB is `half_bytes / 2 ^ 21`, exact:
-- the code's f64s hold it exactly, and floor the same quotient, as long as a frame has fewer than 2 ^ 53 half bytes
-- and the budget is below 2 ^ 31 MiB. u32s keep their wrap and their saturation. `reason`, a text, is left out.
pub mod Residency
mod Tests
use nbe.Prelude.{
  ℕ, ◌+◌, ◌*◌, ◌/◌, ◌%◌, ◌^◌, min, max, Bool, true, false, ◌&&◌, Option, none, some, ltb, leb, ◌==◌,
  if◌then◌else◌,
}
use Prim.Native.String.{String}
use text.Mathlib.Text.{◌==◌ as str_eq}

pub data CacheTextureFormat : Type 0 where
  nv12 nv12_alpha rgba8 bc7 : CacheTextureFormat

-- Twice `bytes_per_pixel`.
abbrev pub half_bytes_per_pixel : CacheTextureFormat → ℕ
half_bytes_per_pixel nv12 = 3
half_bytes_per_pixel nv12_alpha = 5
half_bytes_per_pixel rgba8 = 8
half_bytes_per_pixel bc7 = 2

unfoldable pub from_declared : String → Option CacheTextureFormat
from_declared declared =
    if str_eq declared "nv12"
    then some nv12
    else if str_eq declared "nv12Alpha"
    then some nv12_alpha
    else if str_eq declared "rgba8"
    then some rgba8
    else if str_eq declared "bc7"
    then some bc7
    else none

abbrev pub select : Bool → Bool → CacheTextureFormat
select true true = nv12_alpha
select false true = nv12
select true false = rgba8
select false false = rgba8

pub data CachePolicy : Type 0 where
  vram streaming : CachePolicy

-- `frame_half_bytes` stands for `frame_cost_mib`.
pub record CachePlan : Type 0 where
  pub selected_texture_format : CacheTextureFormat
  pub frame_half_bytes : ℕ
  pub effective_budget_mib : ℕ
  pub max_frames_by_budget : ℕ
  pub period_frames : ℕ
  pub cache_policy_selected : CachePolicy
  pub vram_resident : Bool
  pub read_ahead_frames : ℕ

pub record LoopSpec : Type 0 where
  pub width : ℕ
  pub height : ℕ
  pub period_frames : ℕ
  pub has_alpha : Bool
  pub yuv_sampling : Bool
  pub gop_frames : ℕ
  pub declared_format : Option CacheTextureFormat

abbrev pub clip_head_frames : ℕ
clip_head_frames = 30

abbrev pub u32_limit : ℕ
u32_limit = 4294967296

unfoldable pub clip_window_frames : ℕ → ℕ
clip_window_frames gop_frames = 2 * max gop_frames 1 % u32_limit

unfoldable pub clip_resident_frames : ℕ → ℕ → ℕ
unfolding clip_window_frames
clip_resident_frames length_frames gop_frames =
    min length_frames (clip_head_frames + clip_window_frames gop_frames)

unfoldable pub loop_frame_cap : CachePlan → ℕ
loop_frame_cap plan = max plan.max_frames_by_budget 1

unfoldable pub loop_held_frames : CachePlan → ℕ → ℕ
unfolding loop_frame_cap
loop_held_frames plan length_frames = min length_frames (loop_frame_cap plan)

abbrev pub default_per_loop_mib : ℕ
default_per_loop_mib = 256

abbrev pub default_total_loop_mib : ℕ
default_total_loop_mib = 512

abbrev pub absolute_loop_frame_cap : ℕ
absolute_loop_frame_cap = 900

pub record CacheBudget : Type 0 where
  pub per_loop_mib : ℕ
  pub total_mib : ℕ
  pub recommended_working_set_mib : Option ℕ

abbrev unwrap_or {ℓ} : {A : Type ℓ} → Option A → A → A
unwrap_or none d = d
unwrap_or (some a) d = a

unfoldable pub from_manifest : Option ℕ → CacheBudget
from_manifest declared_per_loop_mib = record {
  per_loop_mib = unwrap_or declared_per_loop_mib default_per_loop_mib;
  total_mib = default_total_loop_mib;
  recommended_working_set_mib = none;
}

unfoldable pub with_working_set : CacheBudget → ℕ → CacheBudget
with_working_set budget recommended_mib = record budget {
  recommended_working_set_mib = some recommended_mib;
}

unfoldable pub effective_mib : CacheBudget → ℕ
effective_mib budget =
    let base = min budget.per_loop_mib budget.total_mib in
    elim budget.recommended_working_set_mib [ none ↦ base | some ws ↦ min base (ws / 4) ]

abbrev pub format_of : LoopSpec → CacheTextureFormat
format_of spec = unwrap_or spec.declared_format (select spec.has_alpha spec.yuv_sampling)

abbrev pub half_bytes : LoopSpec → ℕ
half_bytes spec = spec.width * spec.height * half_bytes_per_pixel (format_of spec)

-- `(effective / cost).floor() as u32`, which saturates.
unfoldable pub max_frames : ℕ → ℕ → ℕ
max_frames effective cost = if cost == 0 then 0 else min (effective * 2097152 / cost) 4294967295

unfoldable pub plan : LoopSpec → CacheBudget → CachePlan
unfolding max_frames effective_mib
plan spec budget =
    let effective = effective_mib budget in
    let frames = max_frames effective (half_bytes spec) in
    let fits =
      ltb 0 spec.period_frames
      && leb spec.period_frames frames
      && leb spec.period_frames absolute_loop_frame_cap in
    record {
      selected_texture_format = format_of spec;
      frame_half_bytes = half_bytes spec;
      effective_budget_mib = effective;
      max_frames_by_budget = frames;
      period_frames = spec.period_frames;
      cache_policy_selected = if fits then vram else streaming;
      vram_resident = fits;
      read_ahead_frames = max (2 * spec.gop_frames % u32_limit) 60;
    }

unfoldable pub texture_slot : ℕ → ℕ → Option ℕ
texture_slot source_index period_frames =
    if period_frames == 0 then none else some (source_index % period_frames)
