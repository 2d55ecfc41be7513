-- ===== src/Audit/App/Manifest.antt =====
-- The checks of tools/workflow-yaml-audit.py about the manifest and the pubspec of the mobile app:
-- S42, S53, S94.
use e2ee_app.Audit.App.{android_manifest_xml, old_android_manifest_xml, pubspec_yaml}
use e2ee_app.Audit.Needs.{check_each, first_file}
use e2ee_app.Audit.Repo.{Repo, Finding}
use e2ee_app.Audit.Strip.{strip_xml}
use e2ee_app.Base.{List, [], ◌∷◌}
use e2ee_app.Needs.{Need, has, need, final, raw}

abbrev pub s42_needs : List Need
s42_needs =
    final "missing top-level `<queries>` block" (has "<queries>")
    ∷ need "`<queries>` block is present but the literal `<package"
        (λ text. has "<package android:name=\"com.whatsapp\"" (strip_xml text))
    ∷ []

unfoldable pub check_android_manifest_whatsapp_queries_v12 : Repo → List Finding
check_android_manifest_whatsapp_queries_v12 repo =
    check_each raw android_manifest_xml s42_needs
      (first_file (repo.file android_manifest_xml) (repo.file old_android_manifest_xml))

abbrev pub s94_needs : List Need
s94_needs =
    need "missing `android.permission.CHANGE_NETWORK_STATE` uses-permission"
      (has "CHANGE_NETWORK_STATE")
    ∷ []

unfoldable pub check_manifest_change_network_state_v37 : Repo → List Finding
check_manifest_change_network_state_v37 repo =
    check_each raw android_manifest_xml s94_needs (repo.file android_manifest_xml)

abbrev pub s53_needs : List Need
s53_needs = need "missing `webrtc:` dep line" (has "webrtc:") ∷ []

unfoldable pub check_pubspec_webrtc_dep_v16 : Repo → List Finding
check_pubspec_webrtc_dep_v16 repo = check_each raw pubspec_yaml s53_needs (repo.file pubspec_yaml)
