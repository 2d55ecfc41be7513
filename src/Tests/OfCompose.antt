-- ===== src/Tests/OfCompose.antt =====
-- infra/scripts/validate_compose.py on concrete documents.
use e2ee_app.Base.{◌≡◌, ◌↔◌, refl, inr, some, [], ◌∷◌}
use e2ee_app.Compose.Crash.{Raises, main_bad_section, main-eq-zero}
use e2ee_app.Compose.Shape.{IsComposeValue, validate_iff}
use e2ee_app.Compose.{validate, main, volumes_shape}
use e2ee_app.Py.Exn.{type_error, Result, ok, raise}
use e2ee_app.Py.Text.{Text}
use e2ee_app.Py.Value.{Value, null, str, dict, list, nil, end, field, key}

-- `services: {kong: {image: kong}}`
abbrev good : Value
good = dict (
    field (key "services")
      (dict (field (key "kong") (dict (field (key "image") (key "kong") end)) end)) end)

-- The same with an empty `volumes:`.
abbrev empty_volumes : Value
empty_volumes = dict (
    field (key "services")
      (dict (field (key "kong") (dict (field (key "image") (key "kong") end)) end))
      (field (key "volumes") null end))

abbrev load : Value → Text → Result Value
load doc text = ok doc

good_passes : main (load good) (some []) ≡ ok (0, [])
unfolding main e2ee_app.Py.Value.find e2ee_app.Py.Value.key_eq e2ee_app.Py.Value.truthy
good_passes = refl

empty_volumes_issue : validate empty_volumes ≡ volumes_shape ∷ []
unfolding validate e2ee_app.Py.Value.find e2ee_app.Py.Value.key_eq e2ee_app.Py.Value.truthy
empty_volumes_issue = refl

empty_volumes_raises : main (load empty_volumes) (some []) ≡ raise type_error
unfolding main e2ee_app.Py.Value.find e2ee_app.Py.Value.key_eq
empty_volumes_raises = refl

validate_iff_example : (validate good ≡ []) ↔ IsComposeValue good
validate_iff_example = validate_iff good

main_bad_section_example : Raises (main (load empty_volumes) (some []))
unfolding e2ee_app.Py.Value.find e2ee_app.Py.Value.key_eq
main_bad_section_example =
    main_bad_section (load empty_volumes) [] empty_volumes refl (inr (inr refl))

main-eq-zero_example : (doc : Value) × (load good [] ≡ ok doc) × IsComposeValue doc
unfolding main e2ee_app.Py.Value.find e2ee_app.Py.Value.key_eq e2ee_app.Py.Value.truthy
main-eq-zero_example = main-eq-zero (load good) [] refl
