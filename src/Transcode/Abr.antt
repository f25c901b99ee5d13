-- ===== src/Transcode/Abr.antt =====
-- internal/transcode/abr.go: the adaptive-bitrate ladder. A dimension or a bitrate that is not positive
-- is 0 here: the code treats all of those alike.
pub mod Ladder
use cubozoa.Prelude.{
  ℕ, ◌+◌, ◌*◌, ◌/◌, Bool, ◌&&◌, ◌||◌, List, [], ◌∷◌, map, Str, codes, itoa, keep, take, ltb, leb,
  ◌==◌, if◌then◌else◌,
}

pub record Rendition : Type 0 where
  pub name : Str
  pub height : ℕ
  pub width : ℕ
  pub video_kbps : ℕ
  pub audio_kbps : ℕ
  pub bandwidth : ℕ

abbrev pub auto_rendition : Rendition
auto_rendition = record {
  name = codes "auto";
  height = 0;
  width = 0;
  video_kbps = 0;
  audio_kbps = 128;
  bandwidth = 3_000_000;
}

abbrev pub ladder_heights : List ℕ
ladder_heights = 1080 ∷ 720 ∷ 480 ∷ 360 ∷ []

unfoldable video_kbps_for : ℕ → ℕ
video_kbps_for height =
    if leb 1080 height
    then 5000
    else if leb 720 height
    then 2800
    else if leb 480 height
    then 1400
    else if leb 360 height
    then 800
    else 500

unfoldable audio_kbps_for : ℕ → ℕ
audio_kbps_for height = if leb 1080 height then 160 else if leb 480 height then 128 else 96

-- `(w + 1) &^ 1` clears the last bit.
unfoldable even_width : ℕ → ℕ → ℕ → ℕ
even_width src_w src_h target_h =
    if src_w == 0 || src_h == 0 then 0 else (src_w * target_h / src_h + 1) / 2 * 2

-- The source's height, then the standard heights strictly below it, four at most.
unfoldable pub rung_heights : ℕ → List ℕ
rung_heights height = take 4 (height ∷ keep (λ h. ltb h height) ladder_heights)

-- What the rung of height `h` spends on video: no more than the source on the top rung.
unfoldable pub rung_kbps : ℕ → ℕ → ℕ → ℕ
unfolding video_kbps_for
rung_kbps height bitrate h =
    let vk = video_kbps_for h in
    let src_kbps = bitrate / 1000 in
    if (ltb 0 bitrate && h == height) && (ltb 0 src_kbps && ltb src_kbps vk) then src_kbps else vk

unfoldable pub rung : ℕ → ℕ → ℕ → ℕ → Rendition
unfolding rung_kbps audio_kbps_for even_width
rung width height bitrate h = record {
  name = itoa h;
  height = h;
  width = even_width width height h;
  video_kbps = rung_kbps height bitrate h;
  audio_kbps = audio_kbps_for h;
  bandwidth = (rung_kbps height bitrate h + audio_kbps_for h) * 1100;
}

unfoldable pub select_renditions : ℕ → ℕ → ℕ → List Rendition
select_renditions width height bitrate =
    if height == 0
    then record auto_rendition {
      bandwidth =
          if ltb auto_rendition.bandwidth bitrate then bitrate else auto_rendition.bandwidth;
    }
      ∷ []
    else map (rung width height bitrate) (rung_heights height)
