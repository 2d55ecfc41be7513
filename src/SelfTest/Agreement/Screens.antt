-- ===== src/SelfTest/Agreement/Screens.antt =====
-- The pairs about the screens.
use e2ee_app.Audit.App.{active_pool_screen_dart, skorlar_screen_dart}
use e2ee_app.Audit.App.Screens.{
  check_active_pool_haptic_feedback_literal_present, check_active_pool_linechart_literal_present,
  check_active_pool_no_30_call_loop_v15, check_active_pool_packet_stream_listen_v15,
  check_active_pool_webrtc_status_indicator_v16, check_oturumu_bitir_full_state_reset_v33,
  check_skorlar_card_overall_gauge_v17,
}
use e2ee_app.Audit.Literals.{
  active_pool_screen, check_active_pool_close_then_navigate_v17,
  check_active_pool_oturumu_bitur_button_v17, check_active_pool_scaffold_messenger_snackbar,
  check_skorlar_empty_state_v17, check_whatsapp_deeplink_literal_present, close_needles,
  intent_needles, skorlar_screen, whatsapp_screen,
}
use e2ee_app.Base.{All, List, [], ◌∷◌}
use e2ee_app.Py.Text.{codes}
use e2ee_app.SelfTest.Agreement.{
  IsAgreement, Pair, each_agree, joined_agree, search_each_agree, search_joined_agree, text_of,
  unchanged,
}
use e2ee_app.SelfTest.Screens.{
  run_s26_check, run_s27_check, run_s29_check, run_s34_check, run_s48_check, run_s51_check,
  run_s60_check, run_s66_check, run_s67_check, run_s68_check, run_s69_check, run_s89_check,
}

abbrev pub screen_pairs : List Pair
screen_pairs =
    record {
      check = check_whatsapp_deeplink_literal_present;
      copies = λ repo. run_s26_check (text_of (repo.file whatsapp_screen));
    }
    ∷ record {
      check = check_active_pool_linechart_literal_present;
      copies = λ repo. run_s27_check (text_of (repo.file active_pool_screen_dart));
    }
    ∷ record {
      check = check_active_pool_haptic_feedback_literal_present;
      copies = λ repo. run_s29_check (text_of (repo.file active_pool_screen_dart));
    }
    ∷ record {
      check = check_active_pool_scaffold_messenger_snackbar;
      copies = λ repo. run_s34_check (text_of (repo.file active_pool_screen));
    }
    ∷ record {
      check = check_active_pool_packet_stream_listen_v15;
      copies = λ repo. run_s48_check (text_of (repo.file active_pool_screen_dart));
    }
    ∷ record {
      check = check_active_pool_no_30_call_loop_v15;
      copies = λ repo. run_s51_check (text_of (repo.file active_pool_screen_dart));
    }
    ∷ record {
      check = check_active_pool_webrtc_status_indicator_v16;
      copies = λ repo. run_s60_check (text_of (repo.file active_pool_screen_dart));
    }
    ∷ record {
      check = check_active_pool_oturumu_bitur_button_v17;
      copies = λ repo. run_s66_check (text_of (repo.file active_pool_screen));
    }
    ∷ record {
      check = check_active_pool_close_then_navigate_v17;
      copies = λ repo. run_s67_check (text_of (repo.file active_pool_screen));
    }
    ∷ record {
      check = check_skorlar_empty_state_v17;
      copies = λ repo. run_s68_check (text_of (repo.file skorlar_screen));
    }
    ∷ record {
      check = check_skorlar_card_overall_gauge_v17;
      copies = λ repo. run_s69_check (text_of (repo.file skorlar_screen_dart));
    }
    ∷ record {
      check = check_oturumu_bitir_full_state_reset_v33;
      copies = λ repo. run_s89_check (text_of (repo.file active_pool_screen_dart));
    }
    ∷ []

pub screen_pairs-IsAgreement : All IsAgreement screen_pairs
unfolding check_whatsapp_deeplink_literal_present run_s26_check
    check_active_pool_linechart_literal_present run_s27_check
    check_active_pool_haptic_feedback_literal_present run_s29_check
    check_active_pool_scaffold_messenger_snackbar run_s34_check
    check_active_pool_packet_stream_listen_v15 run_s48_check check_active_pool_no_30_call_loop_v15
    run_s51_check check_active_pool_webrtc_status_indicator_v16 run_s60_check
    check_active_pool_oturumu_bitur_button_v17 run_s66_check
    check_active_pool_close_then_navigate_v17 run_s67_check check_skorlar_empty_state_v17
    run_s68_check check_skorlar_card_overall_gauge_v17 run_s69_check
    check_oturumu_bitir_full_state_reset_v33 run_s89_check
screen_pairs-IsAgreement = (
  λ repo. search_each_agree _ intent_needles _ _ (λ _. unchanged),
  (
    λ repo. each_agree _ _ _ _ _ (λ _. unchanged),
    (
      λ repo. each_agree _ _ _ _ _ (λ _. unchanged),
      (
        λ repo.
            search_each_agree _ (codes "ScaffoldMessenger.of(context).showSnackBar" ∷ []) _ _
              (λ _. unchanged),
        (
          λ repo. each_agree _ _ _ _ _ (λ _. unchanged),
          (
            λ repo. each_agree _ _ _ _ _ (λ _. unchanged),
            (
              λ repo. joined_agree _ _ _ _ _ (λ _. unchanged),
              (
                λ repo. search_each_agree _ (codes "Oturumu Bitir" ∷ []) _ _ (λ _. unchanged),
                (
                  λ repo. search_joined_agree _ close_needles _ _ (λ _. unchanged),
                  (
                    λ repo.
                        search_each_agree _ (codes "Henüz tamamlanmış oturum yok" ∷ []) _ _
                          (λ _. unchanged),
                    (
                      λ repo. joined_agree _ _ _ _ _ (λ _. unchanged),
                      (λ repo. each_agree _ _ _ _ _ (λ _. unchanged), tt),
                    ),
                  ),
                ),
              ),
            ),
          ),
        ),
      ),
    ),
  ),
)
