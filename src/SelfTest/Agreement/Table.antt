-- ===== src/SelfTest/Agreement/Table.antt =====
-- The promise for all pairs.
use e2ee_app.Audit.Repo.{Repo}
use e2ee_app.Base.{◌≡◌, ◌↔◌, All, In, here, there, List, [], ◌∷◌, ◌++◌}
use e2ee_app.SelfTest.Agreement.Screens.{screen_pairs, screen_pairs-IsAgreement}
use e2ee_app.SelfTest.Agreement.Services.{service_pairs, service_pairs-IsAgreement}
use e2ee_app.SelfTest.Agreement.Native.{native_pairs, native_pairs-IsAgreement}
use e2ee_app.SelfTest.Agreement.Several.{several_pairs, several_pairs-IsAgreement}
use e2ee_app.SelfTest.Agreement.Targets.{target_pairs, target_pairs-IsAgreement}
use e2ee_app.SelfTest.Agreement.{Pair, IsAgreement, All-append}

abbrev pub pairs : List Pair
pairs = screen_pairs ++ (service_pairs ++ (native_pairs ++ (several_pairs ++ target_pairs)))

pairs-IsAgreement : All IsAgreement pairs
pairs-IsAgreement =
    All-append screen_pairs (service_pairs ++ (native_pairs ++ (several_pairs ++ target_pairs)))
      screen_pairs-IsAgreement
      (All-append service_pairs (native_pairs ++ (several_pairs ++ target_pairs))
        service_pairs-IsAgreement
        (All-append native_pairs (several_pairs ++ target_pairs) native_pairs-IsAgreement (
          All-append several_pairs target_pairs several_pairs-IsAgreement
            target_pairs-IsAgreement)))

All-In : (ps : List Pair) → All IsAgreement ps → (p : Pair) → In p ps → IsAgreement p
All-In [] _ p m = elim m [ ]
All-In (_ ∷ ps) (a, all) _ here = a
All-In (_ ∷ ps) (a, all) p (there m) = All-In ps all p m

-- For each of 57 checks of tools/workflow-yaml-audit.py, whatever the repository holds: the check reports
-- nothing exactly where its copies in tools/audit-self-test.py report nothing on the texts of the
-- same files, with `None` for a file that is missing or unreadable.
pub pairs_agree : (repo : Repo) (p : Pair) → In p pairs → (p.check repo ≡ []) ↔ (p.copies repo ≡ [])
pairs_agree repo p m = All-In pairs pairs-IsAgreement p m repo
