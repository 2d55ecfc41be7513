-- ===== src/Audit/App/Order.antt =====
-- What S98 shows of the order of the two calls in OpenE2eeVpnService.kt.
use e2ee_app.Audit.App.Capture.{
  check_check_private_dns_call_before_establish_invariant_v41, s98_needs,
}
use e2ee_app.Audit.App.{vpn_service_kt}
use e2ee_app.Audit.Needs.Laws.{check_each_iff}
use e2ee_app.Audit.Repo.{content, Repo}
use e2ee_app.Base.{◌≡◌, sym, ◌∙◌, ℕ, [], ◌++◌, true, not, ◌==◌, ◌≢◌, arith}
use e2ee_app.Needs.{raw}
use e2ee_app.Py.Text.Find.{find-IsPlace, find_behind-IsPlace, drop-place}
use e2ee_app.Py.Text.{Text, codes, find, find_behind}

abbrev call : Text
call = codes "checkPrivateDnsAndBindToVpn()\n"

abbrev establish : Text
establish = codes "builder.establish()"

-- The text holds the call, and what stands from there on holds `builder.establish()`.
pub record IsOrdered (text : Text) : Type 0 where
  pub before : Text
  pub after : Text
  pub between : Text
  pub behind : Text
  pub called : text ≡ before ++ (call ++ after)
  pub established : call ++ after ≡ between ++ (establish ++ behind)

ne_zero : {n : ℕ} → not (n == 0) ≡ true → n ≢ 0
ne_zero h = ground arith

places-IsOrdered :
    (text : Text)
    → find call text ≢ 0
    → find_behind establish (find call text) text ≢ 0
    → IsOrdered text
places-IsOrdered text c e =
    let p = find-IsPlace call text c in
    let q = find_behind-IsPlace establish (find call text) text e in
    record {
      before = p.before;
      after = p.behind;
      between = q.before;
      behind = q.behind;
      called = p.split;
      established = sym (drop-place call text (find call text) p) ∙ q.split;
    }

-- Where S98 passes, OpenE2eeVpnService.kt is there and can be read, it holds the call of
-- `checkPrivateDnsAndBindToVpn()`, and `builder.establish()` stands behind that call.
pub check-IsOrdered :
    (repo : Repo)
    → check_check_private_dns_call_before_establish_invariant_v41 repo ≡ []
    → (text : Text) × (repo.file vpn_service_kt ≡ content text) × IsOrdered text
unfolding check_check_private_dns_call_before_establish_invariant_v41
check-IsOrdered repo h =
    let (text, e, met) =
      (check_each_iff raw vpn_service_kt s98_needs (repo.file vpn_service_kt)).0 h in
    let (_, (_, (_, (c, (b, _))))) = met in (text, e, places-IsOrdered text (ne_zero c) (ne_zero b))
