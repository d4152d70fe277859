-- ===== src/Client/Updater.antt =====
-- nat-client/src/updater.rs: which version is newer, and what a check for updates finds.
pub mod Order
use nat_server.Common.{
  ℕ, suc, ◌+◌, ◌-◌, ◌≤◌, ◌^◌, Bool, true, false, not, Option, none, some, List, [], ◌∷◌, ◌++◌, ltb,
  leb, if◌then◌else◌, is_empty, unwrap_or, map,
}
use nat_server.Common.Text.{Text, text, split, parse_unsigned}

pub record UpdateInfo : Type 0 where
  pub version : Text
  pub download_url : Text
  pub sha256 : Text
  pub changelog : Text

-- A part that is no u64 counts as 0.
abbrev pub part_number : Text → ℕ
part_number p = unwrap_or (parse_unsigned (2 ^ 64) p) 0

abbrev pub parse_version : Text → List ℕ
parse_version s = map part_number (split b'.' s)

-- `>` on `Vec<u64>`: lexicographic, and a longer list is greater than its beginning.
unfoldable pub vec_greater : List ℕ → List ℕ → Bool
vec_greater [] b = false
vec_greater (x ∷ a) [] = true
vec_greater (x ∷ a) (y ∷ b) =
    let rest = vec_greater a b in if ltb y x then true else if ltb x y then false else rest

unfoldable pub is_newer : Text → Text → Bool
is_newer latest current = vec_greater (parse_version latest) (parse_version current)

-- The answer of the server: the texts of its JSON fields, and the platform of the build.
pub record Answer : Type 0 where
  pub version : Text
  pub field : Text → Text
  pub changelog : Text

-- `platform_field`: the field of this name for the platform.
abbrev pub platform_field : Text → Answer → Text → Text
platform_field platform a prefix = a.field (prefix ++ (b'_' ∷ platform))

-- What `check_update` returns: an error, or the update if there is one.
pub data Checked : Type 0 where
  check_failed : Checked
  up_to_date : Checked
  update : UpdateInfo → Checked

-- `check_update`, where `none` stands for a request that failed or was refused.
unfoldable pub check_update : Text → Text → Option Answer → Checked
check_update platform current none = check_failed
check_update platform current (some a) =
    if is_empty a.version
    then check_failed
    else if not (is_newer a.version current)
    then up_to_date
    else if is_empty (platform_field platform a (text "download_url"))
    then check_failed
    else update (record {
      version = a.version;
      download_url = platform_field platform a (text "download_url");
      sha256 = platform_field platform a (text "sha256");
      changelog = a.changelog;
    })

-- The statics of the updater, and the updates that the callback was given, newest first.
pub record Updater : Type 0 where
  pub software_update_url : Text
  pub software_update_info : Option UpdateInfo
  pub announced : List UpdateInfo
  pub last_check : ℕ
  pub checks : ℕ
  pub running : Bool

-- `do_auto_check`, with `store_update_info`.
unfoldable pub do_auto_check : Checked → Updater → Updater
do_auto_check (update info) u = record u {
  software_update_url = info.download_url;
  software_update_info = some info;
  announced = info ∷ u.announced;
  checks = suc u.checks;
}
do_auto_check c u = record u { checks = suc u.checks }

-- What ends a wait of the thread.
pub data Signal : Type 0 where
  check_signal exit_signal disconnected timeout : Signal

abbrev pub min_check_interval : ℕ
min_check_interval = 600

abbrev pub auto_check_interval : ℕ
auto_check_interval = 86400

-- One round of the thread at a time in seconds. `Instant::now` is taken after the check.
unfoldable pub updater_round : Checked → ℕ → Signal → Updater → Updater
updater_round c now check_signal u =
    if leb min_check_interval (now - u.last_check)
    then record (do_auto_check c u) { last_check = now }
    else u
updater_round c now exit_signal u = record u { running = false }
updater_round c now disconnected u = record u { running = false }
updater_round c now timeout u = record (do_auto_check c u) { last_check = now }

-- How long the next wait is.
abbrev pub next_wait : ℕ → Updater → ℕ
next_wait now u = auto_check_interval - (now - u.last_check)
