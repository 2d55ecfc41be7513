-- ===== src/SelfTest/Service.antt =====
-- The copies of tools/audit-self-test.py that look into the code of OpenE2eeVpnService.kt and of
-- pool_provider.dart: S28, S74 and S82, with the patterns and the loops that they have of their own.
use e2ee_app.Audit.Strip.{strip_plain}
use e2ee_app.Base.{
  ℕ, Bool, true, not, ◌+◌, ◌-◌, ◌&&◌, ◌||◌, Option, none, some, List, [], ◌∷◌, ◌==◌, ltb, length,
  take, if◌then◌else◌,
}
use e2ee_app.Needs.{Need, has, need, each}
use e2ee_app.Py.Re.{
  Re, Found, seq, alt, star, plus, cls, group, literal, char, space, word, spaced, occurs,
  find_iter, search_re, group_text,
}
use e2ee_app.Py.Text.{Text, codes, one_of, text_eq}
use e2ee_app.SelfTest.{Failure, failed, no_text, run_each}

-- `override\s+fun\s+onStartCommand\s*\([^)]*\)[^{]*\{`
abbrev pub s74_on_start_re : Re
s74_on_start_re = seq (literal (codes "override")) (
    seq (plus space) (
      seq (literal (codes "fun")) (
        seq (plus space) (
          seq (spaced ("onStartCommand" ∷ "(" ∷ [])) (
            seq (star (cls (λ c. not (c == b')'))))
              (seq (char b')') (seq (star (cls (λ c. not (c == b'{')))) (char b'{'))))))))

-- The loop that looks for the closing brace, from a depth on: the body up to it.
unfoldable pub s74_body : ℕ → Text → Text
s74_body depth [] = []
s74_body depth (c ∷ code) =
    let after = if c == b'{' then depth + 1 else if c == b'}' then depth - 1 else depth in
    let rest = s74_body after code in if c == b'}' && depth == 1 then c ∷ [] else c ∷ rest

abbrev pub s74_promotes : Text → Bool
s74_promotes body =
    has "startForeground(" body
    || (has "ensureForegroundService" body || has "startForegroundCompat" body)

-- What is asked of the body, where there is one.
abbrev pub s74_starts_foreground : Text → Bool
s74_starts_foreground code = elim (search_re s74_on_start_re code) [
  | none ↦ true
  | some m ↦ s74_promotes (s74_body 0 (b'{' ∷ m.after.rest))
]

abbrev pub s74_mirror : List Need
s74_mirror =
    need "missing `startForeground(` call" (has "startForeground(")
    ∷ need "missing `FOREGROUND_SERVICE_TYPE_SPECIAL_USE` constant"
        (has "FOREGROUND_SERVICE_TYPE_SPECIAL_USE")
    ∷ need "missing `createNotificationChannel` (or `ensureNotificationChannel`) call"
        (λ code. has "createNotificationChannel" code || has "ensureNotificationChannel" code)
    ∷ need "missing `onStartCommand` override" (has "onStartCommand")
    ∷ need "`onStartCommand` body not found (parsing error)" (occurs s74_on_start_re)
    ∷ need "`onStartCommand` body does NOT call `startForeground(`" s74_starts_foreground
    ∷ []

unfoldable pub run_s74_check : Option Text → List Failure
unfolding s74_body
run_s74_check opene2ee_vpn_service_text = run_each strip_plain s74_mirror opene2ee_vpn_service_text

-- `methodChannel\?\.invokeMethod\s*\(|ch\.invokeMethod\s*\(`
abbrev pub s82_invoke_re : Re
s82_invoke_re =
    alt (spaced ("methodChannel?.invokeMethod" ∷ "(" ∷ [])) (spaced ("ch.invokeMethod" ∷ "(" ∷ []))

-- `mainHandler\.post\s*\{`
abbrev pub s82_post_re : Re
s82_post_re = spaced ("mainHandler.post" ∷ "{" ∷ [])

-- `not (invoke_call_count > post_count)`
abbrev pub s82_all_posted : Text → Bool
s82_all_posted code =
    not (ltb (length (find_iter s82_post_re code).0) (length (find_iter s82_invoke_re code).0))

abbrev pub s82_mirror : List Need
s82_mirror =
    need "missing `import android.os.Handler`" (has "import android.os.Handler")
    ∷ need "missing `import android.os.Looper`" (has "import android.os.Looper")
    ∷ need "missing the `Handler(Looper.getMainLooper())` companion field"
        (occurs (spaced ("Handler" ∷ "(" ∷ "Looper.getMainLooper" ∷ "(" ∷ ")" ∷ ")" ∷ [])))
    ∷ need "missing `mainHandler.post` dispatch" (has "mainHandler.post")
    ∷ need "direct `methodChannel?.invokeMethod(` / `ch.invokeMethod(` call site(s)" s82_all_posted
    ∷ []

unfoldable pub run_s82_check : Option Text → List Failure
run_s82_check opene2ee_vpn_service_text = run_each strip_plain s82_mirror opene2ee_vpn_service_text

-- `Timer\.periodic\s*\(`
abbrev pub s28_timer_re : Re
s28_timer_re = spaced ("Timer.periodic" ∷ "(" ∷ [])

-- `=>\s*(\w+)\s*\(`
abbrev pub s28_callback_re : Re
s28_callback_re =
    seq (literal (codes "=>"))
      (seq (star space) (seq (group 1 (plus word)) (seq (star space) (char b'('))))

-- `cb_name`, from the 200 characters behind the match.
abbrev pub s28_callback_name : Found → Text
s28_callback_name m_call = elim (search_re s28_callback_re (take 200 m_call.after.rest)) [
  | none ↦ codes "?"
  | some cb_match ↦ group_text 1 cb_match
]

abbrev pub s28_is_mock : Text → Bool
s28_is_mock name =
    one_of name (codes "_mockTick" ∷ codes "_tick" ∷ codes "advance" ∷ codes "fakeTick" ∷ [])
    || (not (one_of name (codes "_apiTick" ∷ codes "_poll" ∷ codes "tick" ∷ []))
        && not (text_eq name (codes "?")))

-- The loop over the matches: the callbacks that are reported.
unfoldable pub s28_callbacks : List Found → List Text
unfolding one_of text_eq
s28_callbacks [] = []
s28_callbacks (m_call ∷ ms) =
    let rest = s28_callbacks ms in
    if s28_is_mock (s28_callback_name m_call) then s28_callback_name m_call ∷ rest else rest

unfoldable pub run_s28_check : Option Text → List Failure
unfolding s28_callbacks
run_s28_check none = no_text ∷ []
run_s28_check (some text) =
    each failed (s28_callbacks (find_iter s28_timer_re (strip_plain text)).0)
