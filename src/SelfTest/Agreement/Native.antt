-- ===== src/SelfTest/Agreement/Native.antt =====
-- The pairs about the Kotlin files.
use e2ee_app.Audit.App.{main_activity_kt, vpn_service_kt}
use e2ee_app.Audit.App.Capture.{
  check_check_private_dns_5s_fallback_invariant_v40,
  check_check_private_dns_bind_5_logd_invariant_v39,
  check_check_private_dns_call_before_establish_invariant_v41,
  check_stop_capture_ring_clear_invariant_v38, check_vpn_service_mtu_and_fragment_log_v31,
}
use e2ee_app.Audit.App.Channel.{check_main_activity_owns_vpn_channel_v18}
use e2ee_app.Audit.App.Service.{
  check_pool_provider_no_fake_animation_v29, check_vpn_service_startforeground_within_5s_v19,
  check_vpn_service_ui_thread_push_v26, mock_callbacks, timer_re,
}
use e2ee_app.Audit.App.Tunnel.{
  check_vpn_service_addroute_bad_address_v23, check_vpn_service_log_d_breadcrumbs_v20,
  check_vpn_service_state_transition_breadcrumbs_v22, check_vpn_service_tun_passthrough_v24,
}
use e2ee_app.Audit.Literals.{pool_provider}
use e2ee_app.Audit.Needs.{examine}
use e2ee_app.Audit.Repo.{File, absent, content, missing_literals, unreadable}
use e2ee_app.Audit.Strip.{strip_plain}
use e2ee_app.Base.{All, List, [], ◌∷◌, ◌≡◌, ◌↔◌, ap, sym, ◌∙◌}
use e2ee_app.Needs.{each}
use e2ee_app.Needs.Laws.{each-nil}
use e2ee_app.Py.Re.{find_iter}
use e2ee_app.SelfTest.{failed}
use e2ee_app.SelfTest.Agreement.{IsAgreement, Pair, both_report, each_agree, text_of, unchanged}
use e2ee_app.SelfTest.Capture.{
  run_s87_check, run_s95_check, run_s96_check, run_s97_check, run_s98_check,
}
use e2ee_app.SelfTest.Channel.{run_s73_check}
use e2ee_app.SelfTest.Agreement.Service.{s28_callbacks-mock_callbacks, s74_same}
use e2ee_app.SelfTest.Service.{run_s28_check, run_s74_check, run_s82_check}
use e2ee_app.SelfTest.Tunnel.{run_s75_check, run_s78_check, run_s79_check, run_s80_check}

abbrev pub native_pairs : List Pair
native_pairs =
    record {
      check = check_pool_provider_no_fake_animation_v29;
      copies = λ repo. run_s28_check (text_of (repo.file pool_provider));
    }
    ∷ record {
      check = check_main_activity_owns_vpn_channel_v18;
      copies = λ repo. run_s73_check (text_of (repo.file main_activity_kt));
    }
    ∷ record {
      check = check_vpn_service_startforeground_within_5s_v19;
      copies = λ repo. run_s74_check (text_of (repo.file vpn_service_kt));
    }
    ∷ record {
      check = check_vpn_service_log_d_breadcrumbs_v20;
      copies = λ repo. run_s75_check (text_of (repo.file vpn_service_kt));
    }
    ∷ record {
      check = check_vpn_service_state_transition_breadcrumbs_v22;
      copies = λ repo. run_s78_check (text_of (repo.file vpn_service_kt));
    }
    ∷ record {
      check = check_vpn_service_addroute_bad_address_v23;
      copies = λ repo. run_s79_check (text_of (repo.file vpn_service_kt));
    }
    ∷ record {
      check = check_vpn_service_tun_passthrough_v24;
      copies = λ repo. run_s80_check (text_of (repo.file vpn_service_kt));
    }
    ∷ record {
      check = check_vpn_service_ui_thread_push_v26;
      copies = λ repo. run_s82_check (text_of (repo.file vpn_service_kt));
    }
    ∷ record {
      check = check_vpn_service_mtu_and_fragment_log_v31;
      copies = λ repo. run_s87_check (text_of (repo.file vpn_service_kt));
    }
    ∷ record {
      check = check_stop_capture_ring_clear_invariant_v38;
      copies = λ repo. run_s95_check (text_of (repo.file vpn_service_kt));
    }
    ∷ record {
      check = check_check_private_dns_bind_5_logd_invariant_v39;
      copies = λ repo. run_s96_check (text_of (repo.file vpn_service_kt));
    }
    ∷ record {
      check = check_check_private_dns_5s_fallback_invariant_v40;
      copies = λ repo. run_s97_check (text_of (repo.file vpn_service_kt));
    }
    ∷ record {
      check = check_check_private_dns_call_before_establish_invariant_v41;
      copies = λ repo. run_s98_check (text_of (repo.file vpn_service_kt));
    }
    ∷ []

-- S28: the same callbacks are reported.
ticks_agree :
    (file : File)
    → (examine pool_provider file (λ text.
          each
            (missing_literals pool_provider)
            (mock_callbacks (find_iter timer_re (strip_plain text)).0))
        ≡ [])
      ↔ (run_s28_check (text_of file) ≡ [])
unfolding run_s28_check
ticks_agree absent = both_report
ticks_agree unreadable = both_report
ticks_agree (content text) = (
  λ h.
      ap (each failed)
        (s28_callbacks-mock_callbacks _ ∙ each-nil (missing_literals pool_provider) _ h),
  λ h.
      ap (each (missing_literals pool_provider))
        (sym (s28_callbacks-mock_callbacks _) ∙ each-nil failed _ h),
)

pub native_pairs-IsAgreement : All IsAgreement native_pairs
unfolding check_pool_provider_no_fake_animation_v29 run_s28_check
    check_main_activity_owns_vpn_channel_v18 run_s73_check
    check_vpn_service_startforeground_within_5s_v19 run_s74_check
    check_vpn_service_log_d_breadcrumbs_v20 run_s75_check
    check_vpn_service_state_transition_breadcrumbs_v22 run_s78_check
    check_vpn_service_addroute_bad_address_v23 run_s79_check check_vpn_service_tun_passthrough_v24
    run_s80_check check_vpn_service_ui_thread_push_v26 run_s82_check
    check_vpn_service_mtu_and_fragment_log_v31 run_s87_check
    check_stop_capture_ring_clear_invariant_v38 run_s95_check
    check_check_private_dns_bind_5_logd_invariant_v39 run_s96_check
    check_check_private_dns_5s_fallback_invariant_v40 run_s97_check
    check_check_private_dns_call_before_establish_invariant_v41 run_s98_check
native_pairs-IsAgreement = (
  λ repo. ticks_agree (repo.file pool_provider),
  (
    λ repo. each_agree _ _ _ _ _ (λ _. unchanged),
    (
      λ repo. each_agree _ _ _ _ _ s74_same,
      (
        λ repo. each_agree _ _ _ _ _ (λ _. unchanged),
        (
          λ repo. each_agree _ _ _ _ _ (λ _. unchanged),
          (
            λ repo. each_agree _ _ _ _ _ (λ _. unchanged),
            (
              λ repo. each_agree _ _ _ _ _ (λ _. unchanged),
              (
                λ repo. each_agree _ _ _ _ _ (λ _. unchanged),
                (
                  λ repo. each_agree _ _ _ _ _ (λ _. unchanged),
                  (
                    λ repo. each_agree _ _ _ _ _ (λ _. unchanged),
                    (
                      λ repo. each_agree _ _ _ _ _ (λ _. unchanged),
                      (
                        λ repo. each_agree _ _ _ _ _ (λ _. unchanged),
                        (λ repo. each_agree _ _ _ _ _ (λ _. unchanged), tt),
                      ),
                    ),
                  ),
                ),
              ),
            ),
          ),
        ),
      ),
    ),
  ),
)
