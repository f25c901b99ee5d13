-- ===== src/Tests/Watching.antt =====
-- The playback and transcoding theorems at concrete inputs.
use mathlib.Core.List.{Perm, Pairwise}
use cubozoa.Prelude.{
  ℕ, ◌*◌, ◌/◌, ◌+◌, ◌%◌, ◌≤◌, ◌<◌, ◌≡◌, refl, Bool, true, false, ◌&&◌, some, List, [], ◌∷◌, ◌++◌,
  map, length, Str, codes, str_eq, is_empty, arith, if◌then◌else◌, All, keep,
}
use cubozoa.Store.Models.{UserItemData}
use cubozoa.Store.State.{JsonStore}
use cubozoa.Store.Playback.{get_user_item_data, list_user_item_data}
use cubozoa.Prelude.Map.{get}
use cubozoa.UserData.{get_data, resumable, in_progress}
use cubozoa.UserData.Resume.{resumable_lem}
use cubozoa.UserData.View.{IsFiled, report, play}
use cubozoa.UserData.Table.{Call, run_store, run_table, run_store_refines}
use cubozoa.Store.Reads.{Lacks0}
use cubozoa.Prelude.{pos}
use cubozoa.Transcode.Abr.{Rendition, select_renditions}
use cubozoa.Transcode.Abr.Ladder.{IsSound, select_renditions-IsSound, ladder_inversion}
use cubozoa.Tests.Fixtures.{watched, mem, store}

u1-Lacks0 : Lacks0 (codes "u1")
u1-Lacks0 = (ground arith, (ground arith, tt))

store-IsFiled : IsFiled store
unfolding get_user_item_data get
store-IsFiled user item d hu e = absurd (ground arith)

abbrev calls : List Call
calls =
    record { change = report (pos 40); at = 8; user = codes "u1"; item = codes "i1" }
    ∷ record { change = play; at = 9; user = codes "u1"; item = codes "i1" }
    ∷ []

run_store_refines_example :
    get_data (codes "u1") (codes "i1") (run_store calls store)
    ≡ run_table calls (λ u i. get_data u i store) (codes "u1") (codes "i1")
run_store_refines_example =
    run_store_refines calls store (codes "u1") (codes "i1")
      ((u1-Lacks0, refl), ((u1-Lacks0, refl), tt)) store-IsFiled u1-Lacks0

abbrev later : UserItemData
later = record watched { item_id = codes "i2"; last_played_at = 9 }

abbrev watching : JsonStore
watching = record store {
  mem = record mem {
    user_data =
        (codes "u1" ++ 0 ∷ codes "i1", watched) ∷ (codes "u1" ++ 0 ∷ codes "i2", later) ∷ [];
  };
}

resumable_lem_example :
    (ds : List UserItemData) × (resumable (codes "u1") watching
      ≡ map (λ (d : UserItemData). d.item_id) ds)
    × Perm ds (keep in_progress (list_user_item_data (codes "u1") watching))
    × Pairwise (λ d e. e.last_played_at ≤ d.last_played_at) ds
resumable_lem_example = resumable_lem (codes "u1") watching

select_renditions-IsSound_example : All (IsSound 1280) (select_renditions 1280 720 0)
select_renditions-IsSound_example = select_renditions-IsSound 1280 720 0 (ground arith)

abbrev top : Rendition
top = record {
  name = codes "1080";
  height = 1080;
  width = 1920;
  video_kbps = 1000;
  audio_kbps = 160;
  bandwidth = 1_276_000;
}

abbrev second : Rendition
second = record {
  name = codes "720";
  height = 720;
  width = 1280;
  video_kbps = 2800;
  audio_kbps = 128;
  bandwidth = 3_220_800;
}

abbrev lower_rungs : List Rendition
lower_rungs =
    record {
      name = codes "480";
      height = 480;
      width = 854;
      video_kbps = 1400;
      audio_kbps = 128;
      bandwidth = 1_680_800;
    }
    ∷ record {
      name = codes "360";
      height = 360;
      width = 640;
      video_kbps = 800;
      audio_kbps = 96;
      bandwidth = 985_600;
    }
    ∷ []

ladder_inversion_example :
    (top.video_kbps ≡ 1_000_000 / 1000)
    × (top.video_kbps < second.video_kbps)
    × (1_000_000 < second.video_kbps * 1000)
unfolding select_renditions cubozoa.Transcode.Abr.rung_heights cubozoa.Transcode.Abr.rung
    cubozoa.Prelude.itoa
ladder_inversion_example =
    ladder_inversion 1920 1080 1_000_000 (ground arith) (ground arith) (ground arith) top second
      lower_rungs refl
