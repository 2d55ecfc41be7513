-- ===== src/SelfTest/Agreement/Services.antt =====
-- The pairs about the services, the backend and the manifests.
use e2ee_app.Audit.App.{
  android_manifest_xml, old_android_manifest_xml, p2p_matcher_dart, packet_parser_dart,
  pubspec_yaml, router_go, score_calculator_dart, score_calculator_test_dart,
  session_orchestrator_dart, sessions_go, telemetry_service_dart, vpn_service_dart,
  webrtc_service_dart, whatsapp_deeplink_provider_dart,
}
use e2ee_app.Audit.App.Backend.{
  check_backend_sessions_close_handler_v17, check_backend_summary_stats_shape_v17,
}
use e2ee_app.Audit.App.Manifest.{
  check_android_manifest_whatsapp_queries_v12, check_manifest_change_network_state_v37,
  check_pubspec_webrtc_dep_v16,
}
use e2ee_app.Audit.App.Score.{
  check_score_calculator_compute_v17, check_score_calculator_four_metrics_v17,
  check_score_calculator_overall_weighted_sum_v17, check_score_calculator_unit_tests_v17,
}
use e2ee_app.Audit.App.Services.{
  check_p2p_matcher_sessions_endpoint, check_sampled_packet_class_v15,
  check_telemetry_service_summary_upload_v15, check_vpn_service_packet_stream_getter_v15,
  check_whatsapp_deeplink_intent_format,
}
use e2ee_app.Audit.App.Session.{
  check_session_orchestrator_long_poll_v16, check_session_orchestrator_start_session_v16,
  check_webrtc_service_on_ice_candidate_v16, check_webrtc_service_on_track_v16,
  check_webrtc_service_rtc_peer_connection_v16,
}
use e2ee_app.Audit.Literals.{
  auth_service, check_auth_invalidate_method, check_auth_token_expiry_field,
  check_pool_provider_debug_state_fields, debug_state_needles, expiry_needles, invalidate_needles,
  pool_provider,
}
use e2ee_app.Audit.Needs.{first_file}
use e2ee_app.Base.{All, List, [], ◌∷◌}
use e2ee_app.SelfTest.Agreement.{
  IsAgreement, Pair, each_agree, joined_agree, search_each_agree, search_joined_agree, text_of,
  unchanged,
}
use e2ee_app.SelfTest.Backend.{run_s70_check, run_s71_check}
use e2ee_app.SelfTest.Manifest.{run_s42_check, run_s53_check, run_s94_check}
use e2ee_app.SelfTest.Score.{run_s62_check, run_s63_check, run_s64_check, run_s72_check}
use e2ee_app.SelfTest.Services.{
  run_s33_check, run_s38_check, run_s39_check, run_s40_check, run_s41_check, run_s47_check,
  run_s49_check, run_s52_check,
}
use e2ee_app.SelfTest.Session.{
  run_s54_check, run_s55_check, run_s56_check, run_s57_check, run_s59_check,
}

abbrev pub service_pairs : List Pair
service_pairs =
    record {
      check = check_pool_provider_debug_state_fields;
      copies = λ repo. run_s33_check (text_of (repo.file pool_provider));
    }
    ∷ record {
      check = check_auth_token_expiry_field;
      copies = λ repo. run_s38_check (text_of (repo.file auth_service));
    }
    ∷ record {
      check = check_auth_invalidate_method;
      copies = λ repo. run_s39_check (text_of (repo.file auth_service));
    }
    ∷ record {
      check = check_whatsapp_deeplink_intent_format;
      copies = λ repo. run_s40_check (text_of (repo.file whatsapp_deeplink_provider_dart));
    }
    ∷ record {
      check = check_p2p_matcher_sessions_endpoint;
      copies = λ repo. run_s41_check (text_of (repo.file p2p_matcher_dart));
    }
    ∷ record {
      check = check_android_manifest_whatsapp_queries_v12;
      copies = λ repo. run_s42_check (
          text_of
            (first_file (repo.file android_manifest_xml) (repo.file old_android_manifest_xml)));
    }
    ∷ record {
      check = check_vpn_service_packet_stream_getter_v15;
      copies = λ repo. run_s47_check (text_of (repo.file vpn_service_dart));
    }
    ∷ record {
      check = check_sampled_packet_class_v15;
      copies = λ repo. run_s49_check (text_of (repo.file packet_parser_dart));
    }
    ∷ record {
      check = check_telemetry_service_summary_upload_v15;
      copies = λ repo. run_s52_check (text_of (repo.file telemetry_service_dart));
    }
    ∷ record {
      check = check_pubspec_webrtc_dep_v16;
      copies = λ repo. run_s53_check (text_of (repo.file pubspec_yaml));
    }
    ∷ record {
      check = check_webrtc_service_rtc_peer_connection_v16;
      copies = λ repo. run_s54_check (text_of (repo.file webrtc_service_dart));
    }
    ∷ record {
      check = check_webrtc_service_on_ice_candidate_v16;
      copies = λ repo. run_s55_check (text_of (repo.file webrtc_service_dart));
    }
    ∷ record {
      check = check_session_orchestrator_start_session_v16;
      copies = λ repo. run_s56_check (text_of (repo.file session_orchestrator_dart));
    }
    ∷ record {
      check = check_session_orchestrator_long_poll_v16;
      copies = λ repo. run_s57_check (text_of (repo.file session_orchestrator_dart));
    }
    ∷ record {
      check = check_webrtc_service_on_track_v16;
      copies = λ repo. run_s59_check (text_of (repo.file webrtc_service_dart));
    }
    ∷ record {
      check = check_score_calculator_compute_v17;
      copies = λ repo. run_s62_check (text_of (repo.file score_calculator_dart));
    }
    ∷ record {
      check = check_score_calculator_four_metrics_v17;
      copies = λ repo. run_s63_check (text_of (repo.file score_calculator_dart));
    }
    ∷ record {
      check = check_score_calculator_overall_weighted_sum_v17;
      copies = λ repo. run_s64_check (text_of (repo.file score_calculator_dart));
    }
    ∷ record {
      check = check_backend_sessions_close_handler_v17;
      copies = λ repo. run_s70_check (text_of (repo.file router_go));
    }
    ∷ record {
      check = check_backend_summary_stats_shape_v17;
      copies = λ repo. run_s71_check (text_of (repo.file sessions_go));
    }
    ∷ record {
      check = check_score_calculator_unit_tests_v17;
      copies = λ repo. run_s72_check (text_of (repo.file score_calculator_test_dart));
    }
    ∷ record {
      check = check_manifest_change_network_state_v37;
      copies = λ repo. run_s94_check (text_of (repo.file android_manifest_xml));
    }
    ∷ []

pub service_pairs-IsAgreement : All IsAgreement service_pairs
unfolding check_pool_provider_debug_state_fields run_s33_check check_auth_token_expiry_field
    run_s38_check check_auth_invalidate_method run_s39_check check_whatsapp_deeplink_intent_format
    run_s40_check check_p2p_matcher_sessions_endpoint run_s41_check
    check_android_manifest_whatsapp_queries_v12 run_s42_check
    check_vpn_service_packet_stream_getter_v15 run_s47_check check_sampled_packet_class_v15
    run_s49_check check_telemetry_service_summary_upload_v15 run_s52_check
    check_pubspec_webrtc_dep_v16 run_s53_check check_webrtc_service_rtc_peer_connection_v16
    run_s54_check check_webrtc_service_on_ice_candidate_v16 run_s55_check
    check_session_orchestrator_start_session_v16 run_s56_check
    check_session_orchestrator_long_poll_v16 run_s57_check check_webrtc_service_on_track_v16
    run_s59_check check_score_calculator_compute_v17 run_s62_check
    check_score_calculator_four_metrics_v17 run_s63_check
    check_score_calculator_overall_weighted_sum_v17 run_s64_check
    check_backend_sessions_close_handler_v17 run_s70_check check_backend_summary_stats_shape_v17
    run_s71_check check_score_calculator_unit_tests_v17 run_s72_check
    check_manifest_change_network_state_v37 run_s94_check
service_pairs-IsAgreement = (
  λ repo. search_joined_agree _ debug_state_needles _ _ (λ _. unchanged),
  (
    λ repo. search_each_agree _ expiry_needles _ _ (λ _. unchanged),
    (
      λ repo. search_each_agree _ invalidate_needles _ _ (λ _. unchanged),
      (
        λ repo. joined_agree _ _ _ _ _ (λ _. unchanged),
        (
          λ repo. each_agree _ _ _ _ _ (λ _. unchanged),
          (
            λ repo. each_agree _ _ _ _ _ (λ _. unchanged),
            (
              λ repo. joined_agree _ _ _ _ _ (λ _. unchanged),
              (
                λ repo. joined_agree _ _ _ _ _ (λ _. unchanged),
                (
                  λ repo. joined_agree _ _ _ _ _ (λ _. unchanged),
                  (
                    λ repo. each_agree _ _ _ _ _ (λ _. unchanged),
                    (
                      λ repo. joined_agree _ _ _ _ _ (λ _. unchanged),
                      (
                        λ repo. joined_agree _ _ _ _ _ (λ _. unchanged),
                        (
                          λ repo. joined_agree _ _ _ _ _ (λ _. unchanged),
                          (
                            λ repo. each_agree _ _ _ _ _ (λ _. unchanged),
                            (
                              λ repo. joined_agree _ _ _ _ _ (λ _. unchanged),
                              (
                                λ repo. joined_agree _ _ _ _ _ (λ _. unchanged),
                                (
                                  λ repo. joined_agree _ _ _ _ _ (λ _. unchanged),
                                  (
                                    λ repo. each_agree _ _ _ _ _ (λ _. unchanged),
                                    (
                                      λ repo. each_agree _ _ _ _ _ (λ _. unchanged),
                                      (
                                        λ repo. joined_agree _ _ _ _ _ (λ _. unchanged),
                                        (
                                          λ repo. each_agree _ _ _ _ _ (λ _. unchanged),
                                          (λ repo. each_agree _ _ _ _ _ (λ _. unchanged), tt),
                                        ),
                                      ),
                                    ),
                                  ),
                                ),
                              ),
                            ),
                          ),
                        ),
                      ),
                    ),
                  ),
                ),
              ),
            ),
          ),
        ),
      ),
    ),
  ),
)
