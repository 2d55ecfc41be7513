-- ===== src/SelfTest/Manifest.antt =====
-- The copies of tools/audit-self-test.py about the manifest and the pubspec of the mobile app:
-- S42, S53, S94.
use e2ee_app.Audit.Strip.{strip_xml}
use e2ee_app.Base.{Option, List, [], ◌∷◌}
use e2ee_app.Needs.{Need, has, need, final, raw}
use e2ee_app.Py.Text.{Text}
use e2ee_app.SelfTest.{Failure, run_each}

abbrev pub s94_mirror : List Need
s94_mirror =
    need "S94 fail (CHANGE_NETWORK_STATE permission missing)" (has "CHANGE_NETWORK_STATE") ∷ []

unfoldable pub run_s94_check : Option Text → List Failure
run_s94_check android_manifest_text = run_each raw s94_mirror android_manifest_text

abbrev pub s42_mirror : List Need
s42_mirror =
    final "S42 fail (<queries> block missing)" (has "<queries>")
    ∷ need "S42 fail (<package android:name=\"com.whatsapp\" /> missing)"
        (λ text. has "<package android:name=\"com.whatsapp\"" (strip_xml text))
    ∷ []

unfoldable pub run_s42_check : Option Text → List Failure
run_s42_check manifest_text = run_each raw s42_mirror manifest_text

abbrev pub s53_mirror : List Need
s53_mirror = need "missing `webrtc:` dependency line" (has "webrtc:") ∷ []

unfoldable pub run_s53_check : Option Text → List Failure
run_s53_check pubspec_text = run_each raw s53_mirror pubspec_text
