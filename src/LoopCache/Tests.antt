-- ===== src/LoopCache/Tests.antt =====
-- The residency theorems at a 1080p RGBA loop.
use nbe.Prelude.{◌*◌, ◌<◌, ◌≤◌, ◌≡◌, refl, arith, ◌↔◌, true, false, none}
use nbe.LoopCache.{
  LoopSpec, plan, max_frames, effective_mib, half_bytes, absolute_loop_frame_cap, from_manifest,
}
use nbe.LoopCache.Residency.{plan-vram_resident}

abbrev full_hd : LoopSpec
full_hd = record {
  width = 1920;
  height = 1080;
  period_frames = 30;
  has_alpha = true;
  yuv_sampling = false;
  gop_frames = 30;
  declared_format = none;
}

full_hd-resident : (plan full_hd (from_manifest none)).vram_resident ≡ true
unfolding plan from_manifest max_frames effective_mib
full_hd-resident = refl

plan-vram_resident_example : ((plan full_hd (from_manifest none)).vram_resident ≡ true) ↔ (
    (0 < 30)
    × (30 ≤ absolute_loop_frame_cap)
    × (30 * half_bytes full_hd ≤ effective_mib (from_manifest none) * 2097152))
plan-vram_resident_example = plan-vram_resident full_hd (from_manifest none) (omega arith)
