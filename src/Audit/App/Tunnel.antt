-- ===== src/Audit/App/Tunnel.antt =====
-- The checks of tools/workflow-yaml-audit.py about OpenE2eeVpnService.kt:
-- S45, S50, S75, S78, S79, S80.
use e2ee_app.Audit.App.{old_vpn_service_kt, vpn_service_kt}
use e2ee_app.Audit.Comments.{strip_comments}
use e2ee_app.Audit.Needs.{check_each, first_file}
use e2ee_app.Audit.Repo.{Repo, Finding}
use e2ee_app.Audit.Strip.{strip_plain}
use e2ee_app.Base.{not, ltb, ◌&&◌, ◌||◌, List, [], ◌∷◌}
use e2ee_app.Needs.{Need, has, need}
use e2ee_app.Py.Re.{spaced, occurs}
use e2ee_app.Py.Text.{codes, count}

abbrev pub s45_needs : List Need
s45_needs =
    need "missing the literal `\"onPacketsSampled\"`"
      (λ code. has "\"onPacketsSampled\"" code || has "'onPacketsSampled'" code)
    ∷ []

unfoldable pub check_vpn_service_on_packets_sampled_literal_v15 : Repo → List Finding
check_vpn_service_on_packets_sampled_literal_v15 repo =
    check_each strip_comments vpn_service_kt s45_needs
      (first_file (repo.file vpn_service_kt) (repo.file old_vpn_service_kt))

abbrev pub s50_needs : List Need
s50_needs =
    need "foreground notification text is NOT `OpenE2EE Şifreleme Doğrulama`"
      (has "OpenE2EE Şifreleme Doğrulama")
    ∷ []

unfoldable pub check_vpn_service_foreground_notification_text_v15 : Repo → List Finding
check_vpn_service_foreground_notification_text_v15 repo =
    check_each strip_comments vpn_service_kt s50_needs
      (first_file (repo.file vpn_service_kt) (repo.file old_vpn_service_kt))

abbrev pub s75_needs : List Need
s75_needs = need "only" (λ code. not (ltb (count (codes "Log.d(TAG,") code) 5)) ∷ []

unfoldable pub check_vpn_service_log_d_breadcrumbs_v20 : Repo → List Finding
check_vpn_service_log_d_breadcrumbs_v20 repo =
    check_each strip_plain vpn_service_kt s75_needs (repo.file vpn_service_kt)

abbrev pub s78_needs : List Need
s78_needs =
    need "missing `startCapture: SAMPLING started` literal" (has "startCapture: SAMPLING started")
    ∷ need "missing `stopCapture: called` literal" (has "stopCapture: called")
    ∷ need "missing `onRevoke:` literal" (has "onRevoke:")
    ∷ need "missing `synchronized(stateLock)` TOCTOU guard"
        (λ code. has "synchronized(" code && has "stateLock" code)
    ∷ []

unfoldable pub check_vpn_service_state_transition_breadcrumbs_v22 : Repo → List Finding
check_vpn_service_state_transition_breadcrumbs_v22 repo =
    check_each strip_plain vpn_service_kt s78_needs (repo.file vpn_service_kt)

abbrev pub s79_needs : List Need
s79_needs =
    need "missing `.addAddress(TUN_ADDRESS` literal" (has ".addAddress(TUN_ADDRESS")
    ∷ need "missing the default-route addRoute (`.addRoute(\"0.0.0.0\", 0)` literal" (λ code.
      occurs (spaced (".addRoute(" ∷ "\"0.0.0.0\"" ∷ "," ∷ "0" ∷ ")" ∷ [])) code
      || (has "CAPTURED_ROUTE_ADDRESS" code && has "CAPTURED_ROUTE_PREFIX" code))
    ∷ need "contains the anti-pattern `.addRoute(TUN_ADDRESS, ...)`"
        (λ code. not (occurs (spaced (".addRoute(" ∷ "TUN_ADDRESS" ∷ [])) code))
    ∷ []

unfoldable pub check_vpn_service_addroute_bad_address_v23 : Repo → List Finding
check_vpn_service_addroute_bad_address_v23 repo =
    check_each strip_plain vpn_service_kt s79_needs (repo.file vpn_service_kt)

abbrev pub s80_needs : List Need
s80_needs =
    need "missing the TUN passthrough write call (`output.write(buf, 0, n)` or"
      (λ code. has "output.write(buf" code || has "tunOutput.write(" code || has "tun.write(" code)
    ∷ need "missing the TUN input read call (`input.read(buf)` or"
        (λ code. has "input.read(buf" code || has "tunInput.read(" code || has "tun.read(" code)
    ∷ need "contains the anti-pattern `protect(Socket())`"
        (λ code. not (occurs (spaced ("protect" ∷ "(" ∷ "Socket" ∷ "(" ∷ ")" ∷ [])) code))
    ∷ []

unfoldable pub check_vpn_service_tun_passthrough_v24 : Repo → List Finding
check_vpn_service_tun_passthrough_v24 repo =
    check_each strip_plain vpn_service_kt s80_needs (repo.file vpn_service_kt)
