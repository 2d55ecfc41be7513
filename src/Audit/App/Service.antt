-- ===== src/Audit/App/Service.antt =====
-- The checks of tools/workflow-yaml-audit.py that look into the code of OpenE2eeVpnService.kt and of
-- pool_provider.dart: S28, S74 and S82.
use e2ee_app.Audit.App.{vpn_service_kt}
use e2ee_app.Audit.Body.{body_of}
use e2ee_app.Audit.Literals.{pool_provider}
use e2ee_app.Audit.Needs.{examine, check_each}
use e2ee_app.Audit.Repo.{Repo, Finding, missing_literals}
use e2ee_app.Audit.Strip.{strip_plain}
use e2ee_app.Base.{
  Bool, true, not, ◌&&◌, ◌||◌, none, some, List, [], ◌∷◌, ◌==◌, ltb, length, take, if◌then◌else◌,
}
use e2ee_app.Needs.{Need, has, need, each}
use e2ee_app.Py.Re.{
  Re, Found, seq, alt, star, plus, cls, group, literal, char, space, word, spaced, occurs,
  find_iter, search_re, group_text,
}
use e2ee_app.Py.Text.{Text, codes, one_of, text_eq}

-- `override\s+fun\s+onStartCommand\s*\([^)]*\)[^{]*\{`
abbrev pub on_start_re : Re
on_start_re = seq (literal (codes "override")) (
    seq (plus space) (
      seq (literal (codes "fun")) (
        seq (plus space) (
          seq (spaced ("onStartCommand" ∷ "(" ∷ [])) (
            seq (star (cls (λ c. not (c == b')'))))
              (seq (char b')') (seq (star (cls (λ c. not (c == b'{')))) (char b'{'))))))))

-- The body of `onStartCommand`, where there is one, calls `startForeground(` or a helper.
abbrev pub starts_foreground : Text → Bool
starts_foreground code = elim (body_of on_start_re code) [
  | none ↦ true
  | some body ↦
      has "startForeground(" body
      || (has "ensureForegroundService" body || has "startForegroundCompat" body)
]

abbrev pub s74_needs : List Need
s74_needs =
    need "missing `startForeground(` call" (has "startForeground(")
    ∷ need "missing `FOREGROUND_SERVICE_TYPE_SPECIAL_USE` constant"
        (has "FOREGROUND_SERVICE_TYPE_SPECIAL_USE")
    ∷ need "missing `createNotificationChannel` (or `ensureNotificationChannel`) call"
        (λ code. has "createNotificationChannel" code || has "ensureNotificationChannel" code)
    ∷ need "missing `onStartCommand` override" (has "onStartCommand")
    ∷ need "`onStartCommand` body not found (parsing error)" (occurs on_start_re)
    ∷ need "`onStartCommand` body does NOT call `startForeground(`" starts_foreground
    ∷ []

unfoldable pub check_vpn_service_startforeground_within_5s_v19 : Repo → List Finding
check_vpn_service_startforeground_within_5s_v19 repo =
    check_each strip_plain vpn_service_kt s74_needs (repo.file vpn_service_kt)

-- `methodChannel\?\.invokeMethod\s*\(|ch\.invokeMethod\s*\(`
abbrev pub invoke_re : Re
invoke_re =
    alt (spaced ("methodChannel?.invokeMethod" ∷ "(" ∷ [])) (spaced ("ch.invokeMethod" ∷ "(" ∷ []))

-- `mainHandler\.post\s*\{`
abbrev pub post_re : Re
post_re = spaced ("mainHandler.post" ∷ "{" ∷ [])

-- At most as many calls of `invokeMethod` as wrappers.
abbrev pub all_posted : Text → Bool
all_posted code =
    not (ltb (length (find_iter post_re code).0) (length (find_iter invoke_re code).0))

abbrev pub s82_needs : List Need
s82_needs =
    need "missing `import android.os.Handler`" (has "import android.os.Handler")
    ∷ need "missing `import android.os.Looper`" (has "import android.os.Looper")
    ∷ need "missing the `Handler(Looper.getMainLooper())` companion field"
        (occurs (spaced ("Handler" ∷ "(" ∷ "Looper.getMainLooper" ∷ "(" ∷ ")" ∷ ")" ∷ [])))
    ∷ need "missing `mainHandler.post` dispatch" (has "mainHandler.post")
    ∷ need "direct `methodChannel?.invokeMethod(` / `ch.invokeMethod(` call site(s)" all_posted
    ∷ []

unfoldable pub check_vpn_service_ui_thread_push_v26 : Repo → List Finding
check_vpn_service_ui_thread_push_v26 repo =
    check_each strip_plain vpn_service_kt s82_needs (repo.file vpn_service_kt)

abbrev pub timer_re : Re
timer_re = spaced ("Timer.periodic" ∷ "(" ∷ [])

-- `=>\s*(\w+)\s*\(`
abbrev pub callback_re : Re
callback_re =
    seq (literal (codes "=>"))
      (seq (star space) (seq (group 1 (plus word)) (seq (star space) (char b'('))))

-- The name of the callback in the 200 characters behind a match, or `?`.
abbrev pub callback_name : Found → Text
callback_name m = elim (search_re callback_re (take 200 m.after.rest)) [
  | none ↦ codes "?"
  | some f ↦ group_text 1 f
]

abbrev pub is_mock_callback : Text → Bool
is_mock_callback name =
    one_of name (codes "_mockTick" ∷ codes "_tick" ∷ codes "advance" ∷ codes "fakeTick" ∷ [])
    || (not (one_of name (codes "_apiTick" ∷ codes "_poll" ∷ codes "tick" ∷ []))
        && not (text_eq name (codes "?")))

-- The loop over the matches: the names of the callbacks that are reported.
unfoldable pub mock_callbacks : List Found → List Text
unfolding one_of text_eq
mock_callbacks [] = []
mock_callbacks (m ∷ ms) =
    let rest = mock_callbacks ms in
    let name = callback_name m in if is_mock_callback name then name ∷ rest else rest

unfoldable pub check_pool_provider_no_fake_animation_v29 : Repo → List Finding
check_pool_provider_no_fake_animation_v29 repo =
    examine pool_provider (repo.file pool_provider) (λ text.
      each (missing_literals pool_provider)
        (mock_callbacks (find_iter timer_re (strip_plain text)).0))
