-- ===== src/Compose.antt =====
-- infra/scripts/validate_compose.py: the structural check of docker-compose.yml.
-- The parser is a parameter of `main`; an issue is a value, and the summary is modelled by what
-- can stop it.
pub mod Shape
pub mod Crash
use e2ee_app.Base.{
  ℕ, Bool, true, false, not, ◌&&◌, ◌||◌, Option, none, some, List, [], ◌∷◌, ◌++◌, is_nil,
  if◌then◌else◌,
}
use e2ee_app.Py.Exn.{yaml_error, type_error, attribute_error, Result, ok, raise, ◌>>=◌}
use e2ee_app.Py.Text.{Text, codes, one_of, text_lt}
use e2ee_app.Py.Value.{
  Value, null, str, list, dict, other, Items, nil, cons, Fields, end, field, get, get_default,
  has_key, key, truthy, type_name, is_dict, is_list, is_str, is_null, empty_dict,
}

-- One message of `validate`, with what the message names.
pub data Issue : Type 0 where
  top_level : Text → Issue
  missing_services_key : Issue
  networks_shape volumes_shape secrets_shape services_shape : Issue
  network_shape : Value → Issue
  service_shape : Value → Issue
  no_image_or_build : Value → Issue
  service_networks : Value → Issue
  depends_on_item : Value → Text → Issue
  depends_on_spec : Value → Value → Issue
  profiles_shape : Value → Issue

-- `fail(...)` unless the test holds.
abbrev pub unless : Bool → Issue → List Issue
unless b i = if b then [] else i ∷ []

-- `for name, spec in networks.items()`
unfoldable pub check_network_specs : Fields → List Issue
check_network_specs end = []
check_network_specs (field name spec fs) =
    unless (is_dict spec) (network_shape name) ++ check_network_specs fs

abbrev pub check_networks : Value → List Issue
check_networks (dict fs) = check_network_specs fs
check_networks _ = networks_shape ∷ []

-- `for d in dep`
unfoldable pub check_depends_items : Value → Items → List Issue
check_depends_items name nil = []
check_depends_items name (cons d ds) =
    unless (is_str d) (depends_on_item name (type_name d)) ++ check_depends_items name ds

-- `for d_name, d_spec in dep.items()`
unfoldable pub check_depends_specs : Value → Fields → List Issue
check_depends_specs name end = []
check_depends_specs name (field d spec fs) =
    unless (is_dict spec) (depends_on_spec name d) ++ check_depends_specs name fs

abbrev pub check_depends_on : Value → Value → List Issue
check_depends_on name (list ds) = check_depends_items name ds
check_depends_on name (dict fs) = check_depends_specs name fs
check_depends_on name _ = []

-- The body of the loop over the services, where the service is a mapping.
unfoldable pub check_service_fields : Value → Fields → List Issue
unfolding check_depends_items check_depends_specs
check_service_fields name svc =
    let nets = get (key "networks") svc in
    let prof = get (key "profiles") svc in
    unless (has_key (key "image") svc || has_key (key "build") svc) (no_image_or_build name)
    ++ (unless (is_null nets || is_list nets || is_str nets) (service_networks name)
        ++ (check_depends_on name (get (key "depends_on") svc)
            ++ unless (is_null prof || is_list prof) (profiles_shape name)))

abbrev pub check_service : Value → Value → List Issue
check_service name (dict svc) = check_service_fields name svc
check_service name _ = service_shape name ∷ []

unfoldable pub check_services : Fields → List Issue
unfolding check_service_fields
check_services end = []
check_services (field name svc fs) = check_service name svc ++ check_services fs

-- The services, which must be a mapping with an entry.
abbrev pub check_services_value : Value → List Issue
check_services_value (dict end) = services_shape ∷ []
check_services_value (dict (field name svc fs)) = check_services (field name svc fs)
check_services_value _ = services_shape ∷ []

-- `validate` on a mapping.
unfoldable pub validate_fields : Fields → List Issue
unfolding check_network_specs check_services
validate_fields doc =
    let secrets = get_default (key "secrets") empty_dict doc in
    unless (has_key (key "services") doc) missing_services_key
    ++ (check_networks (get_default (key "networks") empty_dict doc)
        ++ (unless (is_dict (get_default (key "volumes") empty_dict doc)) volumes_shape
            ++ (unless (not (truthy secrets) || is_dict secrets) secrets_shape
                ++ check_services_value (get_default (key "services") empty_dict doc))))

unfoldable pub validate : Value → List Issue
unfolding validate_fields
validate (dict doc) = validate_fields doc
validate v = top_level (type_name v) ∷ []

-- `doc.get(k, {}) if isinstance(doc, dict) else {}`
abbrev pub section : Value → Value → Value
section k (dict doc) = get_default k empty_dict doc
section k _ = empty_dict

-- `len(v)`, for its exception. Of the objects that are no scalar, list or mapping, `yaml.safe_load`
-- gives sets (`!!set`) and bytes (`!!binary`) a length.
unfoldable pub check_len : Value → Result (Unit {0})
unfolding one_of
check_len (dict _) = ok tt
check_len (list _) = ok tt
check_len (str _) = ok tt
check_len (other kind _ _) =
    if one_of kind (codes "set" ∷ codes "bytes" ∷ []) then ok tt else raise type_error
check_len v = raise type_error

-- `v.keys()`
unfoldable pub keys_of : Value → Result Fields
keys_of (dict fs) = ok fs
keys_of v = raise attribute_error

-- `', '.join(sorted(keys))`: keys of several types cannot be sorted, others than strings cannot
-- be joined.
unfoldable pub join_keys : Fields → Result (List (Text × Value))
join_keys end = ok []
join_keys (field (str k) v fs) = do rest ← join_keys fs; ok ((k, v) ∷ rest)
join_keys (field _ v fs) = raise type_error

-- One line of the summary: `{len(v)} -> {', '.join(sorted(v.keys()))}`.
unfoldable pub summary_line : Value → Result (List (Text × Value))
unfolding check_len keys_of join_keys
summary_line v = do _ ← check_len v; fs ← keys_of v; join_keys fs

-- `','.join(items)`
unfoldable pub join_items : Items → Result (Unit {0})
join_items nil = ok tt
join_items (cons (str _) vs) = join_items vs
join_items (cons _ vs) = raise type_error

abbrev pub join_if_list : Value → Result (Unit {0})
join_if_list (list vs) = join_items vs
join_if_list v = ok tt

-- The line of one service. A list without elements joins to nothing, so it needs no test.
unfoldable pub service_line : Value → Result (Unit {0})
unfolding join_items check_len
service_line (dict svc) = do
  let ports = get_default (key "ports") (list nil) svc
  _ ← join_if_list (get_default (key "networks") (list nil) svc)
  _ ← join_if_list (get (key "depends_on") svc)
  if truthy ports then check_len ports else ok tt
service_line v = raise attribute_error

unfoldable pub insert_entry : Text × Value → List (Text × Value) → List (Text × Value)
unfolding text_lt
insert_entry e [] = e ∷ []
insert_entry e (f ∷ fs) = if text_lt e.0 f.0 then e ∷ f ∷ fs else f ∷ insert_entry e fs

-- `sorted(services.items())`
unfoldable pub sort_entries : List (Text × Value) → List (Text × Value)
unfolding insert_entry
sort_entries [] = []
sort_entries (e ∷ es) = insert_entry e (sort_entries es)

unfoldable pub service_lines : List (Text × Value) → Result (Unit {0})
service_lines [] = ok tt
service_lines ((_, svc) ∷ es) = do _ ← service_line svc; service_lines es

-- The summary that `main` prints before it reports the issues.
unfoldable pub summary : Value → Result (Unit {0})
unfolding summary_line sort_entries service_lines service_line
summary doc = do
  let secrets = section (key "secrets") doc
  services ← summary_line (section (key "services") doc)
  _ ← summary_line (section (key "networks") doc)
  _ ← summary_line (section (key "volumes") doc)
  _ ← (if truthy secrets then summary_line secrets else ok [])
  service_lines (sort_entries services)

-- The exit status and the issues.
abbrev pub report : List Issue → ℕ × List Issue
report [] = (0, [])
report (i ∷ is') = (3, i ∷ is')

abbrev pub after_parse : Result Value → Result (ℕ × List Issue)
after_parse (raise (yaml_error _)) = ok (2, [])
after_parse (raise e) = raise e
after_parse (ok doc) = do _ ← summary doc; ok (report (validate doc))

-- `main`, from the text of the compose file if it is there, and the parser `yaml.safe_load`.
unfoldable pub main : (Text → Result Value) → Option Text → Result (ℕ × List Issue)
unfolding summary validate
main safe_load none = ok (1, [])
main safe_load (some raw) = after_parse (safe_load raw)
