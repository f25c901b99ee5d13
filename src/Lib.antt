-- ===== src/Lib.antt =====
-- Cubozoa is a media server that speaks the client protocol of Jellyfin. This library models the parts
-- of it that keep state and decide: the datastore, authentication, the login rate limiter, playback
-- state, the bitrate ladder, the transcode sessions and the streams made of them, the digital video
-- recorder, the client's authorization header, television playlists and their guide, and the media
-- library: its scans, its queries and the files that are served.
--
-- How the parts interact. The HTTP server asks the rate limiter and then the authentication
-- service; that service, the playback service and the recorder keep their records in one
-- datastore, which holds everything in memory and writes one JSON file after each mutation, or
-- is a bbolt database. Time-based codes are the second factor of a login. The recorder's
-- scheduler turns series timers and schedules into captures. The ladder chooses the renditions
-- of an adaptive stream, whose sessions the HTTP handlers start, as they do for the stream of a channel.
--
-- Files and the code they model (paths from the repository's root):
--   Prelude, Prelude/*     shared tests on numbers, lists, byte strings, results and association lists
--   Host                   what comes from outside: the Unicode tables and cryptography
--   Store/Models           internal/store/models.go, media_models.go, dvr_models.go: the records
--   Store/State            internal/store/jsonstore.go: jsonStore, persisted, flushLocked, load, OpenJSON
--   Store/Accounts, Catalog, Playback
--                          the methods of jsonStore, one function per method
--   Store/Exec             the mutations of the Store interface (internal/store/store.go) as data
--   Store/Durable, Invariant, Preserve, Reads
--                          proofs: the file and restarts, the invariant, the reads
--   Security/Totp          internal/security/totp.go: totpCode, verifyTOTPAt; proofs in Security/Codes
--   Auth/Service, Sessions internal/auth/service.go: Authenticate, CreateSession, ValidateToken, ...
--   Auth/TwoFactor         internal/auth/totp.go
--   Auth/Access, Lockout, Tokens, Enrolment
--                          proofs: who gets in, the lockout, access tokens, the second factor
--   Server/RateLimit       internal/server/ratelimit.go: allow, gc; proofs in RateLimit/Bound and Idle
--   UserData               internal/userdata/service.go; proofs in UserData/View,
--                          UserData/Table and UserData/Resume
--   Transcode/Abr          internal/transcode/abr.go: SelectRenditions; proofs in Abr/Ladder
--   Dvr/Recorder           internal/dvr/recorder.go: Schedule, Cancel, tick, maybeStart, finalize, resume
--   Dvr/Series, Title      the same file: series timers; normalizeTitle, titleMatches
--   Dvr/Lifecycle, Round, Control, Dedupe, Words
--                          proofs: statuses, the scheduler's round, captures, series, titles
--   Server/ClientIp        internal/server/ratelimit.go: clientIP, indexByte, trimSpace; proofs in
--                          Server/Proxy
--   Server/Login           internal/server/handlers_auth.go, middleware.go, context.go: login, logout,
--                          requireAuth, requireAdmin; proofs in Server/Admission
--   Server/Users           handlers_users.go, handlers_userdata.go: accounts and watched data
--   Server/Items, NextUp   handlers_items.go, handlers_shows.go: what is listed; proofs in
--                          Server/Unwatched
--   Server/TwoFactor       handlers_2fa.go
--   Server/Routes          routes.go: the routes of these handlers and no others; proofs in
--                          Server/Untouched and Server/Ownership
--   Server/Url             what handlers_hls.go uses of net/url and strconv
--   Server/Hls             handlers_hls.go: playlists, and in OnDemand the sessions behind them;
--                          Server/Hls/Live handlers_livetv_stream.go; proofs in Lines, Offered,
--                          Attempts and Agreement
--   Jellyfin/AuthHeader    internal/jellyfin/authheader.go: ParseClientAuth and its grammar; proofs in
--                          Jellyfin/Grammar and Jellyfin/RoundTrip
--   Livetv/M3u             internal/livetv/m3u.go: ParseM3U; proofs in Livetv/Playlist
--   Livetv/Guide           internal/livetv/service.go, match.go, xmltv.go: the guide; proofs in
--                          Livetv/Sorting and Livetv/Schedule
--   Livetv/Xmltv           internal/livetv/xmltv.go: parseGuide
--   Livetv/Reload, Logo    internal/livetv/service.go: reload, loadGuide, fetch, LogoPath; proofs in
--                          Livetv/Lineup
--   Media/Files            internal/media/service.go: ItemStream, ItemSubtitle, ItemImage; proofs in
--                          Media/Containment
--   Media/Browse           the same file: Browse, Seasons, Episodes, Artists; proofs in Media/Sorted
--                          and Media/Paging
--   Media/Library          the same file: RegisterLibrary, ScanLibrary, enrichItems, applyProbe; proofs
--                          in Media/Registration
--   Media/Disk, Tree, Scan internal/media/scan.go: Scan and the trees of shows and music; proofs in
--                          Media/Counts, Media/Growth, Media/Hierarchy and Media/Unmounted
--   Media/Subtitles        internal/media/subtitles.go; proofs in Media/Beside and Media/Webvtt
--   Media/Walk             internal/media/scan.go: collectFiles, and mediaKind of naming.go; proofs in
--                          Media/Held and Media/Visible
--   Transcode/Hls/*        internal/transcode/hls.go: Manager the session table, Args the command lines,
--                          Wait the polls, Calls histories; proofs in Sound, Eviction, Supervision,
--                          Patience, Polled, Beside and Stuck
--   Store/Bolt/*           internal/store/boltstore.go: Engine the bbolt library, State and Accounts,
--                          Catalog, Playback the methods, Exec the mutations; proofs in Scan, Index,
--                          Renew, Keeps, Agree, Refine, History, Reads, Listing and Stale
--   Tests/*                the theorems applied at concrete inputs
--
-- State and operations. A Go method is a function from its arguments and the state to its result and
-- the new state; a method under a lock is one step, and a history or an interleaving is a list of steps.
-- An error is a value. A call that draws a random identity takes it as an argument (or from `Env`), with
-- `none` where the random source fails.
--
-- Choices.
--   * A time is the number of nanoseconds since Go's zero time, 0 being `IsZero`; a call reads the
--     clock once. Subtraction stops at the zero time.
--   * A Go map is an association list. Go visits a map in any order; the model's order is the list's,
--     and the theorems on lookups are over lists with distinct keys and say nothing of an order. The
--     theorem on pages takes a store of another order for each request.
--   * A string is its bytes. A list of bytes and not of runes is enough where the code compares with
--     ASCII only; where it writes runes back, as splitParams does, invalid UTF-8 becomes U+FFFD.
--   * The JSON file is the document that its text encodes. What a restart makes of the text is the
--     parameter `reread`, for encoding/json replaces invalid UTF-8. Each write of the file, which is a
--     temporary file and a rename, succeeds or leaves the old file; which one is `write_ok`, any
--     function.
--   * An attempt at removing a directory of segments fails or not by `removes`, any function of the
--     attempt's number and the directory. A process whose context is cancelled runs until it exits, which
--     is a step of its own.
--   * A round of the recorder's scheduler is one step in Dvr/Round; Dvr/Control treats a call that comes
--     between its listing and its start.
--   * `int` fields that the code counts up or copies are natural numbers. The 64-bit conversion of a
--     Unix time and the 32-bit arithmetic of a code keep their wrap-around.
--   * The rate limiter's floating-point tokens are exact: one token is 5,000,000,000 units, of which one
--     comes each nanosecond.
--   * Other loops are structural recursion over the list or the tree that they visit.
--   * The polls for playlists and segments run on rounds: `none` means that these ran out. A round is
--     150 milliseconds, so that 102 rounds outlast the 15 seconds of a playlist's deadline.
--
-- Not modelled: the PostgreSQL datastore (its statements are text for a database), the choice of
-- pictures in a media directory and the regular expressions of file names (they are fields of
-- `Disk` in `Media/Disk`), ffprobe and its JSON, the HTTP handlers of pictures, subtitles, the
-- television guide and recordings, the client API's JSON shapes, configuration, the audit log and
-- the metadata client. The bbolt library is the interface in `Store/Bolt/Engine`. Password
-- hashing, SHA and HMAC, base32 and Unicode case are parameters in `Host`; ffmpeg, the file
-- system's paths and the channel source are parameters in `Dvr/Recorder` and in `System` of
-- Server/Hls, the network, gzip and XML in `Upstream` of Livetv/Reload, and so are the paths of
-- `Media/Files` and the regular expressions that normalise a channel's name in `Livetv/Guide`.
pub mod Prelude
pub mod Host
pub mod Store
pub mod Security
pub mod Auth
pub mod UserData
pub mod Transcode
pub mod Dvr
pub mod Jellyfin
pub mod Livetv
pub mod Media
pub mod Tests
pub mod Server
