-- ===== src/Tests/Fixtures.antt =====
-- A small host, environment, store and recorder.
use cubozoa.Prelude.{
  ℕ, ◌+◌, true, false, none, some, [], ◌∷◌, ◌++◌, map, codes, str_eq, leb, ◌&&◌, if◌then◌else◌,
}
use cubozoa.Host.{Host}
use cubozoa.Store.Models.{
  User, Session, Library, MediaItem, UserItemData, Recording, scheduled, SeriesTimer,
}
use cubozoa.Store.State.{Mem, JsonStore}
use cubozoa.Auth.Service.{Service}
use cubozoa.Dvr.Recorder.{Env, Recorder}
use cubozoa.Dvr.Series.{Airing}

abbrev lower : ℕ → ℕ
lower c = if leb b'A' c && leb c b'Z' then c + 32 else c

abbrev pub host : Host
host = record {
  fold = map lower;
  to_lower = map lower;
  to_upper = λ s. s;
  trim_space = λ s. s;
  hash_token = λ s. b'#' ∷ s;
  hash_prefix = λ s. b'#' ∷ s;
  verify_password = str_eq;
  hmac_sha1 = λ key msg.
      1 ∷ 2 ∷ 3 ∷ 4 ∷ 5 ∷ 6 ∷ 7 ∷ 8 ∷ 9 ∷ 10 ∷ 11 ∷ 12 ∷ 13 ∷ 14 ∷ 15 ∷ 16 ∷ 17 ∷ 18 ∷ 19 ∷ 3 ∷ [];
  base32_decode = λ s. some s;
}

-- Three failures lock for 60 nanoseconds.
abbrev pub service : Service
service = record { lockout_threshold = 3; lockout_duration = 60 }

abbrev pub alice : User
alice = record {
  id = codes "u1";
  name = codes "Alice";
  password_hash = codes "wonderland";
  is_admin = true;
  created_at = 1;
  last_login_at = 0;
  failed_login_attempts = 0;
  locked_until = 0;
  totp_enabled = false;
  totp_secret = [];
  pending_totp_secret = [];
  recovery_code_hashes = [];
}

abbrev pub films : Library
films = record {
  id = codes "l1";
  name = codes "Films";
  type = codes "movies";
  path = codes "/films";
  item_count = 1;
  created_at = 1;
  scanned_at = 1;
}

abbrev pub film : MediaItem
film = record {
  id = codes "i1";
  library_id = codes "l1";
  parent_id = [];
  name = codes "Film";
  sort_name = codes "film";
  type = codes "Movie";
  media_type = codes "Video";
  path = codes "/films/film.mkv";
  container = codes "mkv";
  production_year = 1999;
  size_bytes = 1000;
  date_created = 1;
  child_count = 0;
  series_id = [];
  series_name = [];
  season_id = [];
  index_number = 0;
  parent_index_number = 0;
  artist_id = [];
  album_id = [];
  album = [];
  album_artist = [];
  artists = [];
  run_time_ticks = 0;
  width = 1920;
  height = 1080;
  video_codec = [];
  audio_codec = [];
  bitrate = 0;
  streams = [];
  subtitles = [];
  overview = [];
  community_rating = 0;
  genres = [];
  primary_image_path = [];
  primary_image_tag = [];
  backdrop_image_path = [];
  backdrop_image_tag = [];
}

abbrev pub watched : UserItemData
watched = record {
  user_id = codes "u1";
  item_id = codes "i1";
  playback_position_ticks = 40;
  play_count = 1;
  played = false;
  is_favorite = false;
  last_played_at = 7;
}

abbrev pub session : Session
session = record {
  id = codes "s1";
  user_id = codes "u1";
  token_hash = codes "#tok";
  client = [];
  device = [];
  device_id = [];
  app_version = [];
  remote_addr = [];
  created_at = 1;
  last_activity = 1;
}

abbrev pub news : Recording
news = record {
  id = codes "r1";
  channel_id = codes "c1";
  channel_name = codes "One";
  program_id = codes "p1";
  name = codes "News";
  path = [];
  start_at = 10;
  end_at = 20;
  status = scheduled;
  created_at = 1;
  series_timer_id = [];
}

abbrev every_news : SeriesTimer
every_news = record {
  id = codes "t1";
  channel_id = codes "c1";
  channel_name = codes "One";
  name = codes "News";
  record_any_channel = false;
  created_at = 1;
}

abbrev pub airing : Airing
airing = record {
  program_id = codes "p1";
  channel_id = codes "c1";
  channel_name = codes "One";
  title = codes "News, Tonight";
  start = 10;
  stop = 20;
}

abbrev pub mem : Mem
mem = record {
  server_id = codes "srv";
  users = (codes "u1", alice) ∷ [];
  sessions = (codes "s1", session) ∷ [];
  libraries = (codes "l1", films) ∷ [];
  items = (codes "i1", film) ∷ [];
  user_data = [];
  recordings = (codes "r1", news) ∷ [];
  series_timers = (codes "t1", every_news) ∷ [];
}

abbrev pub store : JsonStore
store = record { mem = mem; disk = none; write_ok = λ n. true; flushes = 0 }

-- The disk's third write fails.
abbrev pub flaky : JsonStore
flaky = record { mem = mem; disk = none; write_ok = λ n. leb n 1; flushes = 0 }

abbrev pub env : Env
env = record {
  stream_url = λ c. some (codes "http://tuner");
  start_ok = λ id. true;
  file_size = λ p. some 188;
  join = λ d f. d ++ b'/' ∷ f;
  rel = λ d p. some p;
  new_id = λ n. some (codes "r" ++ (b'2' + n) ∷ []);
}

abbrev pub recorder : Recorder
recorder = record { store = store; active = []; dir = codes "/rec"; draws = 0 }
