-- ===== src/Audit/Literals.antt =====
-- The checks of tools/workflow-yaml-audit.py that search sources of the mobile app for literals:
-- S26, S33, S34, S36, S38, S39 and S66 to S68 in one file, S35 and S37 in one of two.
pub mod Hits
use e2ee_app.Audit.Repo.{
  File, absent, unreadable, content, Repo, Finding, file_missing, read_failed, missing_literals,
  no_file_holds,
}
use e2ee_app.Base.{Bool, true, false, List, [], ◌∷◌, if◌then◌else◌}
use e2ee_app.Py.Text.{Text, codes, contains}

-- `[n for n in needles if n not in text]`
unfoldable pub missing_needles : Text → List Text → List Text
missing_needles text [] = []
missing_needles text (n ∷ ns) =
    let rest = missing_needles text ns in if contains n text then rest else n ∷ rest

abbrev pub report_missing : Text → List Text → List Finding
report_missing path [] = []
report_missing path (n ∷ ns) = missing_literals path (n ∷ ns) ∷ []

-- What these checks do with a file, which may be missing or unreadable.
unfoldable pub search_file : Text → List Text → File → List Finding
unfolding missing_needles
search_file path needles absent = file_missing path ∷ []
search_file path needles unreadable = read_failed path ∷ []
search_file path needles (content text) = report_missing path (missing_needles text needles)

abbrev pub whatsapp_screen : Text
whatsapp_screen = codes "mobile/lib/screens/whatsapp_task_detail_screen.dart"

abbrev pub auth_service : Text
auth_service = codes "mobile/lib/services/auth_service.dart"

abbrev pub intent_needles : List Text
intent_needles = codes "intent://send?text=" ∷ []

abbrev pub auth_needles : List Text
auth_needles = codes "post(" ∷ codes "/api/v1/auth" ∷ codes "user_id" ∷ []

abbrev pub expiry_needles : List Text
expiry_needles = codes "_tokenExpiresAt" ∷ []

abbrev pub invalidate_needles : List Text
invalidate_needles = codes "invalidate()" ∷ []

unfoldable pub check_whatsapp_deeplink_literal_present : Repo → List Finding
unfolding search_file
check_whatsapp_deeplink_literal_present repo =
    search_file whatsapp_screen intent_needles (repo.file whatsapp_screen)

unfoldable pub check_auth_service_exists : Repo → List Finding
unfolding search_file
check_auth_service_exists repo = search_file auth_service auth_needles (repo.file auth_service)

unfoldable pub check_auth_token_expiry_field : Repo → List Finding
unfolding search_file
check_auth_token_expiry_field repo =
    search_file auth_service expiry_needles (repo.file auth_service)

unfoldable pub check_auth_invalidate_method : Repo → List Finding
unfolding search_file
check_auth_invalidate_method repo =
    search_file auth_service invalidate_needles (repo.file auth_service)

abbrev pub pool_provider : Text
pool_provider = codes "mobile/lib/state/pool_provider.dart"

abbrev pub active_pool_screen : Text
active_pool_screen = codes "mobile/lib/screens/active_pool_screen.dart"

abbrev pub skorlar_screen : Text
skorlar_screen = codes "mobile/lib/screens/skorlar_screen.dart"

abbrev pub debug_state_needles : List Text
debug_state_needles = codes "lastError" ∷ codes "lastSuccess" ∷ []

-- The finding of S67 describes the literals that are missing.
abbrev pub close_needles : List Text
close_needles = codes "closeSession" ∷ codes "/home/skorlar" ∷ []

unfoldable pub check_pool_provider_debug_state_fields : Repo → List Finding
unfolding search_file
check_pool_provider_debug_state_fields repo =
    search_file pool_provider debug_state_needles (repo.file pool_provider)

unfoldable pub check_active_pool_scaffold_messenger_snackbar : Repo → List Finding
unfolding search_file
check_active_pool_scaffold_messenger_snackbar repo =
    search_file active_pool_screen (codes "ScaffoldMessenger.of(context).showSnackBar" ∷ [])
      (repo.file active_pool_screen)

unfoldable pub check_active_pool_oturumu_bitur_button_v17 : Repo → List Finding
unfolding search_file
check_active_pool_oturumu_bitur_button_v17 repo =
    search_file active_pool_screen (codes "Oturumu Bitir" ∷ []) (repo.file active_pool_screen)

unfoldable pub check_active_pool_close_then_navigate_v17 : Repo → List Finding
unfolding search_file
check_active_pool_close_then_navigate_v17 repo =
    search_file active_pool_screen close_needles (repo.file active_pool_screen)

unfoldable pub check_skorlar_empty_state_v17 : Repo → List Finding
unfolding search_file
check_skorlar_empty_state_v17 repo =
    search_file skorlar_screen (codes "Henüz tamamlanmış oturum yok" ∷ [])
      (repo.file skorlar_screen)

abbrev pub service_files : List Text
service_files =
    codes "mobile/lib/services/telemetry_service.dart"
    ∷ codes "mobile/lib/services/p2p_matcher.dart"
    ∷ []

-- Whether the file can be read and holds the needle.
abbrev pub holds : Text → File → Bool
holds needle (content text) = contains needle text
holds needle _ = false

-- Whether `missing` gets the file: it is not there or cannot be read.
abbrev pub is_missing : File → Bool
is_missing (content text) = false
is_missing _ = true

-- The loop over the targets, which ends with a hit; the missing files before it.
pub data Hit : Type 0 where
  hit : Text → Hit
  no_hit : List Text → Hit

abbrev pub add_missing : Bool → Text → Hit → Hit
add_missing _ _ (hit p) = hit p
add_missing true t (no_hit ms) = no_hit (t ∷ ms)
add_missing false t (no_hit ms) = no_hit ms

unfoldable pub find_hit : Repo → Text → List Text → Hit
find_hit repo needle [] = no_hit []
find_hit repo needle (t ∷ ts) =
    let rest = find_hit repo needle ts in
    if holds needle (repo.file t) then hit t else add_missing (is_missing (repo.file t)) t rest

abbrev pub api_key_needle : Text
api_key_needle = codes "String.fromEnvironment('API_KEY'"

abbrev pub headers_needle : Text
headers_needle = codes "authHeaders()"

abbrev pub report_s35 : Hit → List Finding
report_s35 (hit _) = []
report_s35 (no_hit missing) = no_file_holds api_key_needle missing ∷ []

unfoldable pub check_service_api_key_from_environment : Repo → List Finding
unfolding find_hit
check_service_api_key_from_environment repo =
    report_s35 (find_hit repo api_key_needle service_files)

-- S37 does not name the missing files.
abbrev pub report_s37 : Hit → List Finding
report_s37 (hit _) = []
report_s37 (no_hit _) = no_file_holds headers_needle [] ∷ []

unfoldable pub check_service_uses_auth_headers : Repo → List Finding
unfolding find_hit
check_service_uses_auth_headers repo = report_s37 (find_hit repo headers_needle service_files)
