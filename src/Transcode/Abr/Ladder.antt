-- ===== src/Transcode/Abr/Ladder.antt =====
-- The ladder of internal/transcode/abr.go: its heights, widths and bit rates.
use native.Mathlib.Nat.{div-le_of_le-mul}
use cubozoa.Prelude.{
  ℕ, ◌+◌, ◌*◌, ◌/◌, ◌%◌, ◌≤◌, ◌<◌, ◌≡◌, refl, ap, ◌∙◌, List, [], ◌∷◌, map, keep, take, length, All,
  ltb, arith,
}
use cubozoa.Transcode.Abr.{
  Rendition, ladder_heights, rung_heights, rung_kbps, rung, select_renditions,
}

-- Each height is below the one before it.
abbrev pub Falling : List ℕ → Type 0
Falling [] = Unit
Falling (h ∷ []) = Unit
Falling (h ∷ k ∷ ks) = (k < h) × Falling (k ∷ ks)

rung_heights_lem :
    (height : ℕ)
    → (rest : List ℕ) × (rung_heights height ≡ height ∷ rest)
      × Falling (height ∷ rest)
      × (length rest ≤ 3)
unfolding rung_heights
rung_heights_lem height =
    (take 3 (keep (λ h. ltb h height) ladder_heights), refl, ground arith, ground arith)

map-rung :
    (width height bitrate : ℕ) (hs : List ℕ)
    → map (λ (r : Rendition). r.height) (map (rung width height bitrate) hs) ≡ hs
unfolding rung
map-rung width height bitrate [] = refl
map-rung width height bitrate (h ∷ hs) = ap (◌∷◌ h) (map-rung width height bitrate hs)

rungs_of_known :
    (width height bitrate : ℕ)
    → 0 < height
    → select_renditions width height bitrate ≡ map (rung width height bitrate) (rung_heights height)
unfolding select_renditions
rungs_of_known width height bitrate h = ground arith

-- For a source of known height the ladder has one to four rungs, the first at the source's height and
-- each next one strictly lower, so nothing is upscaled.
pub select_renditions_heights :
    (width height bitrate : ℕ)
    → 0 < height
    → (rest : List ℕ) × (map (λ (r : Rendition). r.height) (select_renditions width height bitrate)
        ≡ height ∷ rest)
      × Falling (height ∷ rest)
      × (length rest ≤ 3)
select_renditions_heights width height bitrate h =
    let (rest, e, f, n) = rung_heights_lem height in
    (
      rest,
      ap (map (λ (r : Rendition). r.height)) (rungs_of_known width height bitrate h)
          ∙ map-rung width height bitrate (rung_heights height)
          ∙ e,
      f,
      n,
    )

-- What is asked of a rung of a source that is `width` wide.
pub record IsSound (width : ℕ) (r : Rendition) : Type 0 where
  pub even : r.width % 2 ≡ 0
  pub narrow : r.width ≤ width + 1
  pub spends : 0 < r.video_kbps
  pub overhead : r.bandwidth * 10 ≡ (r.video_kbps + r.audio_kbps) * 1000 * 11

scaled-le : (w t h : ℕ) → 0 < h → t ≤ h → w * t / h ≤ w
scaled-le w t h p q = div-le_of_le-mul h (grind arith)

rung-IsSound :
    (width height bitrate h : ℕ)
    → 0 < height
    → h ≤ height
    → IsSound width (rung width height bitrate h)
unfolding rung
rung-IsSound width height bitrate h p q = record {
  even = ground arith;
  narrow = ground (arith, scaled-le width h height p q);
  spends = ground arith;
  overhead = ground arith;
}

rungs-IsSound :
    (width height bitrate : ℕ) (hs : List ℕ)
    → 0 < height
    → All (λ h. h ≤ height) hs
    → All (IsSound width) (map (rung width height bitrate) hs)
rungs-IsSound width height bitrate [] p a = tt
rungs-IsSound width height bitrate (h ∷ hs) p (q, a) =
    (rung-IsSound width height bitrate h p q, rungs-IsSound width height bitrate hs p a)

Falling-le : (top h : ℕ) (hs : List ℕ) → h ≤ top → Falling (h ∷ hs) → All (λ k. k ≤ top) (h ∷ hs)
Falling-le top h [] p f = (p, tt)
Falling-le top h (k ∷ ks) p (lt, f) = (p, Falling-le top k ks (omega arith) f)

-- For a source of known height, every rung has an even width, at most one pixel wider than the source,
-- and a bit rate, and its advertised bandwidth is a tenth above what its video and its audio take.
pub select_renditions-IsSound :
    (width height bitrate : ℕ)
    → 0 < height
    → All (IsSound width) (select_renditions width height bitrate)
select_renditions-IsSound width height bitrate h =
    let (rest, e, f, n) = rung_heights_lem height in
    rw (rungs_of_known width height bitrate h, e)
      (rungs-IsSound width height bitrate (height ∷ rest) h
        (Falling-le height height rest (omega arith) f))

-- The ladder turns over: for a source of at least 1080 lines whose bit rate is below 2,800 kbit/s the
-- top rung is held to the source's bit rate and the rungs below it are not, so the second rung spends
-- more than the first one and more than the source.
pub ladder_inversion :
    (width height bitrate : ℕ)
    → 1080 ≤ height
    → 1000 ≤ bitrate
    → bitrate < 2_800_000
    → (top second : Rendition) (rest : List Rendition)
    → select_renditions width height bitrate ≡ top ∷ second ∷ rest
    → (top.video_kbps ≡ bitrate / 1000)
      × (top.video_kbps < second.video_kbps)
      × (bitrate < second.video_kbps * 1000)
unfolding rung_kbps rung rung_heights
ladder_inversion width height bitrate h b c top second rest e =
    ground (arith, rungs_of_known width height bitrate)
