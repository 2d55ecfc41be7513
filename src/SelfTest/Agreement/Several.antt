-- ===== src/SelfTest/Agreement/Several.antt =====
-- The pairs about several copies of one check, and several files.
use e2ee_app.Audit.App.{
  active_pool_screen_dart, build_gradle_kts, main_activity_kt, netty_channel_client_kt,
  skorlar_screen_dart, vpn_service_kt,
}
use e2ee_app.Audit.App.Netty.{
  check_tcp_dataflow_v46, check_tcp_state_machine_v43, check_udp_forwarder_v44,
}
use e2ee_app.Audit.App.Pairs.{
  check_dns_private_dns_conflict_v34, check_oturumu_bitir_2level_fallback_v32,
  check_user_space_tcp_ip_stack_invariant_v42,
}
use e2ee_app.Audit.App.Screens.{check_skorlar_screen_fetch_scores_v17, s61_needs}
use e2ee_app.Base.{All, List, [], ◌∷◌, ◌++◌, ◌≡◌, ◌↔◌, Bool, true, false, ◌||◌, refl, sym, ◌∙◌}
use e2ee_app.Needs.Laws.{AreMet}
use e2ee_app.Py.Text.{Text}
use e2ee_app.SelfTest.Agreement.{
  IsAgreement, Pair, append_agree, blank_agree, each_agree, joined_agree, split_agree, text_of,
  unchanged,
}
use e2ee_app.SelfTest.Flow.{
  run_s109_check, run_s110_check, run_s111_check, s109_mirror, s110_mirror, s111_mirror,
}
use e2ee_app.SelfTest.Netty.{
  run_s100_check, run_s101_check, run_s102_check, run_s103_check, run_s104_check, run_s105_check,
  s100_mirror, s101_mirror, s102_mirror, s103_mirror, s104_mirror, s105_mirror,
}
use e2ee_app.SelfTest.Pairs.{run_s88_check, run_s91_check, run_s99_check}
use e2ee_app.SelfTest.Screens.{run_s61_check, s61_mirror}

abbrev pub several_pairs : List Pair
several_pairs =
    record {
      check = check_skorlar_screen_fetch_scores_v17;
      copies = λ repo. run_s61_check (text_of (repo.file skorlar_screen_dart));
    }
    ∷ record {
      check = check_oturumu_bitir_2level_fallback_v32;
      copies = λ repo.
          run_s88_check (text_of (repo.file active_pool_screen_dart))
            (text_of (repo.file main_activity_kt));
    }
    ∷ record {
      check = check_dns_private_dns_conflict_v34;
      copies = λ repo.
          run_s91_check (text_of (repo.file vpn_service_kt))
            (text_of (repo.file active_pool_screen_dart));
    }
    ∷ record {
      check = check_user_space_tcp_ip_stack_invariant_v42;
      copies = λ repo.
          run_s99_check (text_of (repo.file vpn_service_kt)) (text_of (repo.file build_gradle_kts))
            (text_of (repo.file netty_channel_client_kt));
    }
    ∷ record {
      check = check_tcp_state_machine_v43;
      copies = λ repo.
          run_s100_check (text_of (repo.file netty_channel_client_kt))
          ++ (run_s101_check (text_of (repo.file netty_channel_client_kt))
              ++ run_s102_check (text_of (repo.file netty_channel_client_kt)));
    }
    ∷ record {
      check = check_udp_forwarder_v44;
      copies = λ repo.
          run_s103_check (text_of (repo.file netty_channel_client_kt))
          ++ (run_s104_check (text_of (repo.file netty_channel_client_kt))
              ++ run_s105_check (text_of (repo.file netty_channel_client_kt)));
    }
    ∷ record {
      check = check_tcp_dataflow_v46;
      copies = λ repo.
          run_s109_check (text_of (repo.file netty_channel_client_kt))
          ++ (run_s110_check (text_of (repo.file netty_channel_client_kt))
              ++ run_s111_check (text_of (repo.file netty_channel_client_kt)));
    }
    ∷ []

-- S61: the copy asks for the same in another order, and names one literal twice.
s61_iff : (text : Text) → AreMet s61_needs text ↔ AreMet s61_mirror text
s61_iff text = (
  λ (f, (c, (g, z))). (or_same _ ∙ f, (g, (c, z))),
  λ (f, (g, (c, z))). (sym (or_same _) ∙ f, (c, (g, z))),
)
  where
    or_same : (b : Bool) → (b || b) ≡ b
    or_same true = refl
    or_same false = refl

pub several_pairs-IsAgreement : All IsAgreement several_pairs
unfolding check_skorlar_screen_fetch_scores_v17 run_s61_check
    check_oturumu_bitir_2level_fallback_v32 run_s88_check check_dns_private_dns_conflict_v34
    run_s91_check check_user_space_tcp_ip_stack_invariant_v42 run_s99_check
    check_tcp_state_machine_v43 run_s100_check run_s101_check run_s102_check check_udp_forwarder_v44
    run_s103_check run_s104_check run_s105_check check_tcp_dataflow_v46 run_s109_check
    run_s110_check run_s111_check
several_pairs-IsAgreement = (
  λ repo. joined_agree _ _ _ _ _ s61_iff,
  (
    λ repo.
        append_agree (each_agree _ _ _ _ _ (λ _. unchanged))
          (each_agree _ _ _ _ _ (λ _. unchanged)),
    (
      λ repo.
          append_agree (each_agree _ _ _ _ _ (λ _. unchanged))
            (each_agree _ _ _ _ _ (λ _. unchanged)),
      (
        λ repo. append_agree (blank_agree _ _ _ _ _ (λ _. unchanged)) (
            append_agree (blank_agree _ _ _ _ _ (λ _. unchanged))
              (blank_agree _ _ _ _ _ (λ _. unchanged))),
        (
          λ repo.
              split_agree _ s100_mirror (s101_mirror ++ s102_mirror) _
                (each_agree _ _ _ _ _ (λ _. unchanged))
                (split_agree _ s101_mirror s102_mirror _ unchanged unchanged),
          (
            λ repo.
                split_agree _ s103_mirror (s104_mirror ++ s105_mirror) _
                  (each_agree _ _ _ _ _ (λ _. unchanged))
                  (split_agree _ s104_mirror s105_mirror _ unchanged unchanged),
            (
              λ repo.
                  split_agree _ s109_mirror (s110_mirror ++ s111_mirror) _
                    (each_agree _ _ _ _ _ (λ _. unchanged))
                    (split_agree _ s110_mirror s111_mirror _ unchanged unchanged),
              tt,
            ),
          ),
        ),
      ),
    ),
  ),
)
