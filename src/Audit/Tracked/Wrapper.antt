-- ===== src/Audit/Tracked/Wrapper.antt =====
-- When S17 and S19 pass: the files of the skeleton are in the repository.
use e2ee_app.Audit.Repo.{File, absent, unreadable, content, exists, is_tracked, Repo}
use e2ee_app.Audit.Tracked.{
  not_tracked, report_s19, check_fresh_create_metadata_tracked, metadata_files, wrapper_files,
  re_include_patterns, missing_from, missing_patterns, untracked, gitignore_path, report_s17,
  check_gradle_wrapper_force_include,
}
use e2ee_app.Base.{◌↔◌, ◌≡◌, refl, ap, ◌∙◌, inl, inr, Bool, true, List, [], ◌∷◌, All, Bool-cases}
use e2ee_app.Py.Exn.{ok, >>=-eq-ok}
use e2ee_app.Py.Text.{Text, codes, contains}

abbrev pub IsKept : Repo → Text → Type 0
IsKept repo p = (is_tracked (repo.ls_files p) ≡ true) × (exists (repo.file p) ≡ true)

untracked-nil : (repo : Repo) (ps : List Text) → untracked repo ps ≡ [] → All (IsKept repo) ps
unfolding untracked
untracked-nil repo [] h = tt
untracked-nil repo (p ∷ ps) h = elim (Bool-cases (is_tracked (repo.ls_files p))) [
  | inr e ↦ absurd (cons_ne (rw e at h))
  | inl e ↦ elim (Bool-cases (exists (repo.file p))) [
    | inr f ↦ absurd (cons_ne (rw (e, f) at h))
    | inl f ↦ ((e, f), untracked-nil repo ps (rw (e, f) at h))
  ]
]
  where
    cons_ne : {q : Text} {b : Bool} {rest : List (Text × Bool)} → ((q, b) ∷ rest) ≡ [] → ⊥
    cons_ne h = cc

missing_from-nil :
    (text : Text) (ps : List Text)
    → missing_from text ps ≡ []
    → All (λ p. contains p text ≡ true) ps
unfolding missing_from
missing_from-nil text [] h = tt
missing_from-nil text (p ∷ ps) h = elim (Bool-cases (contains p text)) [
  | inl e ↦ (e, missing_from-nil text ps (rw e at h))
  | inr e ↦ absurd (cons_ne (rw e at h))
]
  where
    cons_ne : {q : Text} {rest : List Text} → (q ∷ rest) ≡ [] → ⊥
    cons_ne h = cc

report_s17-nil :
    (fs : List (Text × Bool)) (ps : List Text) → report_s17 fs ps ≡ [] → (fs ≡ []) × (ps ≡ [])
report_s17-nil [] [] h = (refl, refl)
report_s17-nil [] (p ∷ ps) h = cc
report_s17-nil (f ∷ fs) ps h = cc

missing_patterns-nil :
    (f : File) (p : Text) (ps : List Text)
    → missing_patterns f (p ∷ ps) ≡ ok []
    → (text : Text) × (f ≡ content text) × All (λ q. contains q text ≡ true) (p ∷ ps)
unfolding missing_patterns
missing_patterns-nil absent p ps h = cc
missing_patterns-nil unreadable p ps h = cc
missing_patterns-nil (content text) p ps h = (text, refl, missing_from-nil text (p ∷ ps) cc)

-- Where S17 passes, git knows the three files of the Gradle wrapper, they are on the disk, and
-- the root's .gitignore contains the three patterns that re-include them.
pub check_gradle_wrapper_force_include_passes :
    (repo : Repo)
    → check_gradle_wrapper_force_include repo ≡ ok []
    → All (IsKept repo) (
        codes "mobile/android/gradlew"
        ∷ codes "mobile/android/gradlew.bat"
        ∷ codes "mobile/android/gradle/wrapper/gradle-wrapper.jar"
        ∷ [])
      × ((text : Text) × (repo.file (codes ".gitignore") ≡ content text)
          × All
              (λ p. contains p text ≡ true)
              (codes "!**/android/gradlew"
                ∷ codes "!**/android/gradlew.bat"
                ∷ codes "!**/android/gradle/wrapper/gradle-wrapper.jar"
                ∷ []))
unfolding check_gradle_wrapper_force_include
check_gradle_wrapper_force_include_passes repo h =
    let (ps, e, out) =
      >>=-eq-ok (missing_patterns (repo.file gitignore_path) re_include_patterns)
        (λ ps. ok (report_s17 (untracked repo wrapper_files) ps)) h in
    let (files, patterns) = report_s17-nil (untracked repo wrapper_files) ps (cc) in
    (
      untracked-nil repo wrapper_files files,
      missing_patterns-nil (repo.file gitignore_path) _ _ (e ∙ ap ok patterns),
    )

not_tracked-nil :
    (repo : Repo) (ps : List Text)
    → not_tracked repo ps ≡ []
    → All (λ p. is_tracked (repo.ls_files p) ≡ true) ps
unfolding not_tracked
not_tracked-nil repo [] h = tt
not_tracked-nil repo (p ∷ ps) h = elim (Bool-cases (is_tracked (repo.ls_files p))) [
  | inl e ↦ (e, not_tracked-nil repo ps (rw e at h))
  | inr e ↦ absurd (cons_ne (rw e at h))
]
  where
    cons_ne : {q : Text} {rest : List Text} → (q ∷ rest) ≡ [] → ⊥
    cons_ne h = cc

not_tracked-All :
    (repo : Repo) (ps : List Text)
    → All (λ p. is_tracked (repo.ls_files p) ≡ true) ps
    → not_tracked repo ps ≡ []
unfolding not_tracked
not_tracked-All repo [] h = refl
not_tracked-All repo (p ∷ ps) (e, h) = rw e (not_tracked-All repo ps h)

report_s19-nil : (ps : List Text) → report_s19 ps ≡ [] → ps ≡ []
report_s19-nil [] h = refl
report_s19-nil (p ∷ ps) h = cc

-- S19 passes exactly where git knows mobile/.metadata and mobile/android/.gitignore.
pub check_fresh_create_metadata_tracked_iff :
    (repo : Repo)
    → (check_fresh_create_metadata_tracked repo ≡ []) ↔ (
        (is_tracked (repo.ls_files (codes "mobile/.metadata")) ≡ true)
        × (is_tracked (repo.ls_files (codes "mobile/android/.gitignore")) ≡ true))
unfolding check_fresh_create_metadata_tracked
check_fresh_create_metadata_tracked_iff repo = (
  λ h.
      let (a, (b, _)) =
        not_tracked-nil repo metadata_files (report_s19-nil (not_tracked repo metadata_files) h) in
      (a, b),
  λ (a, b). ap report_s19 (not_tracked-All repo metadata_files (a, (b, tt))),
)
