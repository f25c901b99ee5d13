-- ===== src/Store/Models.antt =====
-- The persisted records: internal/store/models.go, media_models.go and dvr_models.go.
-- A `time.Time` is the number of nanoseconds since Go's zero time, so 0 is the zero time; a Go `int`
-- that the code only counts up or copies is a natural number. `CommunityRating`, which the store only
-- copies, is the bit pattern of its float64.
use cubozoa.Prelude.{ℕ, Bool, List, Str}

abbrev pub Time : Type 0
Time = ℕ

pub record User : Type 0 where
  pub id : Str
  pub name : Str
  pub password_hash : Str
  pub is_admin : Bool
  pub created_at : Time
  pub last_login_at : Time
  pub failed_login_attempts : ℕ
  pub locked_until : Time
  pub totp_enabled : Bool
  pub totp_secret : Str
  pub pending_totp_secret : Str
  pub recovery_code_hashes : List Str

pub record Session : Type 0 where
  pub id : Str
  pub user_id : Str
  pub token_hash : Str
  pub client : Str
  pub device : Str
  pub device_id : Str
  pub app_version : Str
  pub remote_addr : Str
  pub created_at : Time
  pub last_activity : Time

pub record Library : Type 0 where
  pub id : Str
  pub name : Str
  pub type : Str
  pub path : Str
  pub item_count : ℕ
  pub created_at : Time
  pub scanned_at : Time

pub record MediaStreamInfo : Type 0 where
  pub index : ℕ
  pub type : Str
  pub codec : Str
  pub language : Str
  pub channels : ℕ
  pub width : ℕ
  pub height : ℕ
  pub is_default : Bool
  pub title : Str

pub record SubtitleTrack : Type 0 where
  pub path : Str
  pub language : Str
  pub codec : Str
  pub format : Str
  pub forced : Bool
  pub title : Str

pub record MediaItem : Type 0 where
  pub id : Str
  pub library_id : Str
  pub parent_id : Str
  pub name : Str
  pub sort_name : Str
  pub type : Str
  pub media_type : Str
  pub path : Str
  pub container : Str
  pub production_year : ℕ
  pub size_bytes : ℕ
  pub date_created : Time
  pub child_count : ℕ
  pub series_id : Str
  pub series_name : Str
  pub season_id : Str
  pub index_number : ℕ
  pub parent_index_number : ℕ
  pub artist_id : Str
  pub album_id : Str
  pub album : Str
  pub album_artist : Str
  pub artists : List Str
  pub run_time_ticks : ℕ
  pub width : ℕ
  pub height : ℕ
  pub video_codec : Str
  pub audio_codec : Str
  pub bitrate : ℕ
  pub streams : List MediaStreamInfo
  pub subtitles : List SubtitleTrack
  pub overview : Str
  pub community_rating : ℕ
  pub genres : List Str
  pub primary_image_path : Str
  pub primary_image_tag : Str
  pub backdrop_image_path : Str
  pub backdrop_image_tag : Str

pub record UserItemData : Type 0 where
  pub user_id : Str
  pub item_id : Str
  pub playback_position_ticks : ℕ
  pub play_count : ℕ
  pub played : Bool
  pub is_favorite : Bool
  pub last_played_at : Time

pub data RecStatus : Type 0 where
  scheduled recording completed failed cancelled : RecStatus

pub record Recording : Type 0 where
  pub id : Str
  pub channel_id : Str
  pub channel_name : Str
  pub program_id : Str
  pub name : Str
  pub path : Str
  pub start_at : Time
  pub end_at : Time
  pub status : RecStatus
  pub created_at : Time
  pub series_timer_id : Str

pub record SeriesTimer : Type 0 where
  pub id : Str
  pub channel_id : Str
  pub channel_name : Str
  pub name : Str
  pub record_any_channel : Bool
  pub created_at : Time
