-- ===== src/Release.antt =====
-- config/version.go and update/update.go: the user agent that a device sends, and the choice of the
-- channels and of the version for updates. The updater is the package updaterini.
mod UserAgent
mod Channels
mod Examples
use gravil.Base.{
  ℕ, Bool, true, false, not, ◌&&◌, ◌||◌, Option, none, some, List, [], ◌∷◌, ◌++◌, Text, text, eqb,
  ◌==◌, text_key, if◌then◌else◌,
}
use gravil.Config.Peers.{is_empty}

abbrev pub dev_version : Text
dev_version = text "dev"

abbrev pub user_agent_prefix : Text
user_agent_prefix = text "awl/"

-- `UserAgent`, for a `SystemInfo` of system and architecture.
abbrev pub system_info : Text → Text → Text
system_info goos goarch = goos ++ 45 ∷ goarch

abbrev pub user_agent : Text → Text → Text
user_agent system version = user_agent_prefix ++ (system ++ 47 ∷ version)

-- What is behind the last separator, if there is one (`strings.LastIndex`).
unfoldable pub last_found : ℕ → ℕ → Text → Option Text → Option Text
last_found sep c s (some rest) = some rest
last_found sep c s none = if eqb c sep then some s else none

unfoldable pub after_last : ℕ → Text → Option Text
unfolding last_found
after_last sep [] = none
after_last sep (c ∷ s) = last_found sep c s (after_last sep s)

-- Where the last separator ends the text, what is behind it is empty too.
abbrev pub or_nothing : Option Text → Text
or_nothing none = []
or_nothing (some s) = s

unfoldable pub version_from_user_agent : Text → Text
unfolding after_last
version_from_user_agent s = or_nothing (after_last 47 s)

-- `strings.Cut`, for a separator of one rune.
unfoldable pub cut : ℕ → Text → Text × Text × Bool
cut sep [] = ([], [], false)
cut sep (c ∷ s) =
    let rest = cut sep s in if eqb c sep then ([], s, true) else (c ∷ rest.0, rest.1, rest.2)

-- `strings.TrimPrefix`.
unfoldable pub cut_prefix : Text → Text → Option Text
cut_prefix [] s = some s
cut_prefix (p ∷ ps) [] = none
cut_prefix (p ∷ ps) (c ∷ s) = let rest = cut_prefix ps s in if eqb p c then rest else none

abbrev pub or_whole : Text → Option Text → Text
or_whole s none = s
or_whole s (some t) = t

unfoldable pub trim_prefix : Text → Text → Text
unfolding cut_prefix
trim_prefix prefix s = or_whole s (cut_prefix prefix s)

unfoldable pub system_of : Text × Text × Bool → Text × Text
unfolding cut
system_of (info, rest, false) = ([], [])
system_of (info, rest, true) = ((cut 45 info).0, (cut 45 info).1)

unfoldable pub system_info_from_user_agent : Text → Text × Text
unfolding cut trim_prefix system_of
system_info_from_user_agent s = system_of (cut 47 (trim_prefix user_agent_prefix s))

-- A channel of updates: the release channel has no name.
pub record Channel : Type 0 where
  pub name : Option Text
  pub is_used : Bool

-- The loop over `updChannels`; `found` is `lowestInChan`.
unfoldable pub setup_channels : Text → Bool → List Text → List Channel × Bool
setup_channels lowest found [] = ([], found)
setup_channels lowest found (ch ∷ chs) =
    let rest = setup_channels lowest (if ch == lowest then true else found) chs in
    ((record { name = some ch; is_used = not found }) ∷ rest.0, rest.1)

abbrev pub with_custom : Text → List Channel × Bool → List Channel
with_custom lowest (chs, found) =
    if not found then chs ++ (record { name = some lowest; is_used = true }) ∷ [] else chs

unfoldable pub channels : Text → List Text → List Channel
unfolding setup_channels
channels lowest upd_channels =
    (record { name = none; is_used = true })
    ∷ with_custom lowest (setup_channels lowest (is_empty lowest) upd_channels)

abbrev pub upd_channels : List Text
upd_channels = text "rc" ∷ []

-- Is the part behind the first dash a count of commits, and no name of a channel?
abbrev pub is_count : (ℕ → Bool) → Text → Bool
is_count is_digit [] = true
is_count is_digit (c ∷ s) = is_digit c

-- The version without the parts that `git describe` adds; `is_digit` is `unicode.IsDigit`.
unfoldable pub update_version : (ℕ → Bool) → Text → Text
unfolding cut
update_version is_digit version =
    let (first, rest, dashed) = cut 45 version in
    if dashed && is_count is_digit (cut 45 rest).0 then first else version

pub data ApplicationType : Type 0 where
  app_type_awl app_type_awl_tray other_type : ApplicationType

-- What `NewApplicationConfig` is given, the name of the program for the pattern of file names.
pub record AppConf : Type 0 where
  pub version : Text
  pub channels : List Channel
  pub filenames : Text

pub data Updates : Type 0 where
  dev_unsupported unknown_type : Updates
  configured : AppConf → Updates

unfoldable pub service_for : (ℕ → Bool) → Text → Text → ApplicationType → Updates
unfolding channels update_version
service_for is_digit version lowest other_type = unknown_type
service_for is_digit version lowest app_type_awl = configured (record {
  version = update_version is_digit version;
  channels = channels lowest upd_channels;
  filenames = text "awl";
})
service_for is_digit version lowest app_type_awl_tray = configured (record {
  version = update_version is_digit version;
  channels = channels lowest upd_channels;
  filenames = text "awl-tray";
})

-- `NewUpdateService`, up to the call of the package.
unfoldable pub new_update_service : (ℕ → Bool) → Text → Text → ApplicationType → Updates
unfolding service_for
new_update_service is_digit version lowest app =
    if version == dev_version then dev_unsupported else service_for is_digit version lowest app

pub data CheckStatus : Type 0 where
  check_success check_has_errors check_failure : CheckStatus

-- `CheckForUpdates`: whether there is a new version, or none for the error.
unfoldable pub check_for_updates : Bool → CheckStatus → Option Bool
check_for_updates found check_success = some found
check_for_updates found check_has_errors = some found
check_for_updates found check_failure = none
