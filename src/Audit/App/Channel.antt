-- ===== src/Audit/App/Channel.antt =====
-- The checks of tools/workflow-yaml-audit.py about MainActivity.kt:
-- S46, S73.
use e2ee_app.Audit.App.{main_activity_kt, old_main_activity_kt}
use e2ee_app.Audit.Comments.{strip_comments}
use e2ee_app.Audit.Needs.{check_each, first_file}
use e2ee_app.Audit.Repo.{Repo, Finding}
use e2ee_app.Audit.Strip.{strip_plain}
use e2ee_app.Base.{not, ◌||◌, List, [], ◌∷◌}
use e2ee_app.Needs.{Need, has, need}

abbrev pub s46_needs : List Need
s46_needs =
    need "contains the 10.1F inline mock packet literal `mapOf(\"version\" to ...," (λ code.
      not (has "\"version\"" code)
      || not (has "\"protocol\"" code)
      || not (has "\"srcIpMasked\"" code))
    ∷ []

unfoldable pub check_main_activity_snapshot_call_v15 : Repo → List Finding
check_main_activity_snapshot_call_v15 repo =
    check_each strip_comments main_activity_kt s46_needs
      (first_file (repo.file main_activity_kt) (repo.file old_main_activity_kt))

abbrev pub s73_needs : List Need
s73_needs =
    need "missing `MethodChannel(` constructor call" (has "MethodChannel(")
    ∷ need "missing the `opene2ee/vpn` channel name (expected either" (λ code.
      has "OpenE2eeVpnService.METHOD_CHANNEL" code
      || (has "\"opene2ee/vpn\"" code || has "'opene2ee/vpn'" code))
    ∷ need "missing `setMethodCallHandler` install" (has "setMethodCallHandler")
    ∷ need "missing `OpenE2eeVpnService.dispatch` call" (has "OpenE2eeVpnService.dispatch")
    ∷ []

unfoldable pub check_main_activity_owns_vpn_channel_v18 : Repo → List Finding
check_main_activity_owns_vpn_channel_v18 repo =
    check_each strip_plain main_activity_kt s73_needs (repo.file main_activity_kt)
