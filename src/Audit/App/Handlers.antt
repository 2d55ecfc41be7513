-- ===== src/Audit/App/Handlers.antt =====
-- The checks of tools/workflow-yaml-audit.py on the two ends of the method channel: S43 (its handler in
-- Kotlin, in one of two files) and S77 (the screen that listens to it).
use e2ee_app.Audit.App.{
  active_pool_screen_dart, main_activity_kt, old_main_activity_kt, old_vpn_service_kt,
  vpn_service_kt,
}
use e2ee_app.Audit.Comments.{strip_comments}
use e2ee_app.Audit.Needs.{check_each, first_file}
use e2ee_app.Audit.Repo.{
  Repo, Finding, File, absent, unreadable, content, read_failed, missing_literals,
}
use e2ee_app.Base.{Bool, true, false, not, ◌&&◌, ◌||◌, List, [], ◌∷◌, ◌++◌, if◌then◌else◌}
use e2ee_app.Needs.{Need, has, need, raw}
use e2ee_app.Py.Re.{Re, occurs, spaced}
use e2ee_app.Py.Text.{Text, codes}

-- `when\s*\(\s*call\.method\s*\)`
abbrev pub when_re : Re
when_re = spaced ("when" ∷ "(" ∷ "call.method" ∷ ")" ∷ [])

abbrev pub has_literal : Text → Bool
has_literal code = has "\"getSampledPackets\"" code || has "'getSampledPackets'" code

-- The first loop over the candidates: the findings up to the first file with the case, and whether
-- there is one.
unfoldable pub find_handler : List (Text × File) → List Finding × Bool
unfolding strip_comments
find_handler [] = ([], false)
find_handler ((label, absent) ∷ cs) = find_handler cs
find_handler ((label, unreadable) ∷ cs) =
    let rest = find_handler cs in (read_failed label ∷ rest.0, rest.1)
find_handler ((label, content text) ∷ cs) =
    let rest = find_handler cs in
    let code = strip_comments text in
    if occurs when_re code && has_literal code then ([], true) else rest

-- The second loop: the files with the block and without the case.
unfoldable pub unhandled : List (Text × File) → List Finding
unfolding strip_comments
unhandled [] = []
unhandled ((label, content text) ∷ cs) =
    let rest = unhandled cs in
    let code = strip_comments text in
    if occurs when_re code && not (has_literal code)
    then missing_literals label (codes "\"getSampledPackets\"" ∷ []) ∷ rest
    else rest
unhandled (_ ∷ cs) = unhandled cs

abbrev pub or_neither : List Finding → List Finding
or_neither [] = missing_literals (codes "getSampledPackets handler") [] ∷ []
or_neither (f ∷ fs) = f ∷ fs

abbrev pub judge_handler : List (Text × File) → List Finding × Bool → List Finding
judge_handler candidates (findings, true) = findings
judge_handler candidates (findings, false) = or_neither (findings ++ unhandled candidates)

abbrev pub s43_candidates : Repo → List (Text × File)
s43_candidates repo =
    (
      codes "MainActivity.kt",
      first_file (repo.file main_activity_kt) (repo.file old_main_activity_kt),
    )
    ∷ (
      codes "OpenE2eeVpnService.kt",
      first_file (repo.file vpn_service_kt) (repo.file old_vpn_service_kt),
    )
    ∷ []

unfoldable pub check_main_activity_get_sampled_packets_v13 : Repo → List Finding
unfolding find_handler unhandled
check_main_activity_get_sampled_packets_v13 repo =
    judge_handler (s43_candidates repo) (find_handler (s43_candidates repo))

-- The screen without `setState` is only reported where it listens. The test behind the first one has an
-- `elif` that does nothing: a text with `ConsumerStatefulWidget` has a piece with `StatefulWidget`.
abbrev pub listens : Text → Bool
listens text = has "stateStream.listen" text || has ".stateStream.listen" text

abbrev pub s77_needs : List Need
s77_needs =
    need "does NOT extend `ConsumerStatefulWidget`" (has "ConsumerStatefulWidget")
    ∷ need "missing `stateStream.listen` subscription" listens
    ∷ need "`stateStream.listen` callback does NOT call `setState(`"
        (λ text. not (listens text) || has "setState(" text)
    ∷ need "does NOT reference `VpnService.instance` (or `vpnServiceProvider`)"
        (λ text. has "VpnService.instance" text || has "vpnServiceProvider" text)
    ∷ []

unfoldable pub check_active_pool_screen_ui_propagation_v21 : Repo → List Finding
check_active_pool_screen_ui_propagation_v21 repo =
    check_each raw active_pool_screen_dart s77_needs (repo.file active_pool_screen_dart)
