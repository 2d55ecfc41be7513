-- ===== src/Compose/Shape.antt =====
-- What it means that `validate` finds nothing: the shape of a compose document.
use e2ee_app.Base.{
  ◌≡◌, refl, ◌⊎◌, ◌↔◌, inl, inr, Bool, true, false, not, ◌||◌, List, [], ◌∷◌, ◌++◌, arith,
}
use e2ee_app.Compose.{
  Issue, unless, check_network_specs, check_networks, check_depends_items, check_depends_specs,
  check_depends_on, check_service_fields, check_service, check_services, check_services_value,
  validate_fields, validate, network_shape, depends_on_item, depends_on_spec, no_image_or_build,
  missing_services_key, volumes_shape, secrets_shape, service_networks, profiles_shape,
}
use e2ee_app.Py.Value.{
  Value, null, bool, int, neg_int, str, list, dict, other, Items, nil, cons, Fields, end, field,
  get, get_default, has_key, key, truthy, type_name, is_dict, is_list, is_str, is_null, empty_dict,
}

abbrev IsMapping : Value → Type 0
IsMapping (dict _) = Unit
IsMapping _ = ⊥

abbrev IsText : Value → Type 0
IsText (str _) = Unit
IsText _ = ⊥

-- Every value of a mapping satisfies `P`.
abbrev EveryValue : (Value → Type 0) → Fields → Type 0
EveryValue P end = Unit
EveryValue P (field k v fs) = P v × EveryValue P fs

abbrev EveryItem : (Value → Type 0) → Items → Type 0
EveryItem P nil = Unit
EveryItem P (cons v vs) = P v × EveryItem P vs

-- A mapping of mappings.
abbrev IsNetworks : Value → Type 0
IsNetworks (dict fs) = EveryValue IsMapping fs
IsNetworks _ = ⊥

-- A list holds strings, a mapping holds mappings; anything else is let through.
abbrev IsDependsOn : Value → Type 0
IsDependsOn (list ds) = EveryItem IsText ds
IsDependsOn (dict fs) = EveryValue IsMapping fs
IsDependsOn _ = Unit

abbrev IsNetworkList : Value → Type 0
IsNetworkList null = Unit
IsNetworkList (list _) = Unit
IsNetworkList (str _) = Unit
IsNetworkList _ = ⊥

abbrev IsProfiles : Value → Type 0
IsProfiles null = Unit
IsProfiles (list _) = Unit
IsProfiles _ = ⊥

pub record IsService (svc : Fields) : Type 0 where
  pub source : (has_key (key "image") svc ≡ true) ⊎ (has_key (key "build") svc ≡ true)
  pub networks : IsNetworkList (get (key "networks") svc)
  pub depends_on : IsDependsOn (get (key "depends_on") svc)
  pub profiles : IsProfiles (get (key "profiles") svc)

abbrev IsServiceValue : Value → Type 0
IsServiceValue (dict svc) = IsService svc
IsServiceValue _ = ⊥

-- A mapping with an entry, of services.
abbrev IsServices : Value → Type 0
IsServices (dict end) = ⊥
IsServices (dict (field k v fs)) = EveryValue IsServiceValue (field k v fs)
IsServices _ = ⊥

pub record IsCompose (doc : Fields) : Type 0 where
  pub has_services : has_key (key "services") doc ≡ true
  pub networks : IsNetworks (get_default (key "networks") empty_dict doc)
  pub volumes : IsMapping (get_default (key "volumes") empty_dict doc)
  pub secrets :
      (truthy (get_default (key "secrets") empty_dict doc) ≡ false)
      ⊎ IsMapping (get_default (key "secrets") empty_dict doc)
  pub services : IsServices (get_default (key "services") empty_dict doc)

abbrev pub IsComposeValue : Value → Type 0
IsComposeValue (dict doc) = IsCompose doc
IsComposeValue _ = ⊥

append-eq-nil {ℓ} : {A : Type ℓ} (xs ys : List A) → xs ++ ys ≡ [] → (xs ≡ []) × (ys ≡ [])
append-eq-nil [] ys h = (refl, h)
append-eq-nil (x ∷ xs) ys h = cc

nil-append {ℓ} : {A : Type ℓ} (xs ys : List A) → xs ≡ [] → ys ≡ [] → xs ++ ys ≡ []
nil-append [] ys h k = k
nil-append (x ∷ xs) ys h k = cc

unless-eq-nil : (b : Bool) (i : Issue) → (unless b i ≡ []) ↔ (b ≡ true)
unless-eq-nil true i = (λ h. refl, λ h. refl)
unless-eq-nil false i = (λ h. cc, λ h. cc)

is_dict_iff : (v : Value) → (is_dict v ≡ true) ↔ IsMapping v
is_dict_iff v = ground arith

is_str_iff : (v : Value) → (is_str v ≡ true) ↔ IsText v
is_str_iff v = ground arith

IsNetworkList-iff : (v : Value) → ((is_null v || is_list v || is_str v) ≡ true) ↔ IsNetworkList v
IsNetworkList-iff v = ground arith

IsProfiles-iff : (v : Value) → ((is_null v || is_list v) ≡ true) ↔ IsProfiles v
IsProfiles-iff v = ground arith

-- Both parts of a list of issues are empty exactly when both conditions hold.
both_iff {ℓ} :
    {A : Type ℓ} {P Q : Type 0} (xs ys : List A)
    → ((xs ≡ []) ↔ P)
    → ((ys ≡ []) ↔ Q)
    → (xs ++ ys ≡ []) ↔ (P × Q)
both_iff xs ys p q = (
  λ h. let (a, b) = append-eq-nil xs ys h in (p.0 a, q.0 b),
  λ h. nil-append xs ys (p.1 h.0) (q.1 h.1),
)

unless_iff : {P : Type 0} (b : Bool) (i : Issue) → ((b ≡ true) ↔ P) → (unless b i ≡ []) ↔ P
unless_iff b i p = (λ h. p.0 ((unless-eq-nil b i).0 h), λ h. (unless-eq-nil b i).1 (p.1 h))

check_network_specs_iff : (fs : Fields) → (check_network_specs fs ≡ []) ↔ EveryValue IsMapping fs
unfolding check_network_specs
check_network_specs_iff end = (λ h. tt, λ h. refl)
check_network_specs_iff (field k v fs) =
    both_iff _ _ (unless_iff (is_dict v) (network_shape k) (is_dict_iff v))
      (check_network_specs_iff fs)

check_depends_items_iff :
    (name : Value) (ds : Items) → (check_depends_items name ds ≡ []) ↔ EveryItem IsText ds
unfolding check_depends_items
check_depends_items_iff name nil = (λ h. tt, λ h. refl)
check_depends_items_iff name (cons d ds) =
    both_iff _ _ (unless_iff (is_str d) (depends_on_item name (type_name d)) (is_str_iff d))
      (check_depends_items_iff name ds)

check_depends_specs_iff :
    (name : Value) (fs : Fields) → (check_depends_specs name fs ≡ []) ↔ EveryValue IsMapping fs
unfolding check_depends_specs
check_depends_specs_iff name end = (λ h. tt, λ h. refl)
check_depends_specs_iff name (field d v fs) =
    both_iff _ _ (unless_iff (is_dict v) (depends_on_spec name d) (is_dict_iff v))
      (check_depends_specs_iff name fs)

-- A list of issues that is never empty.
never_iff {ℓ} : {A : Type ℓ} (x : A) (xs : List A) → (x ∷ xs ≡ []) ↔ ⊥
never_iff x xs = (λ h. cc, λ h. absurd h)

always_iff {ℓ} : {A : Type ℓ} → (◌≡◌ {A = List A} [] []) ↔ Unit {0}
always_iff = (λ h. tt, λ h. refl)

check_depends_on_iff : (name v : Value) → (check_depends_on name v ≡ []) ↔ IsDependsOn v
check_depends_on_iff name (list ds) = check_depends_items_iff name ds
check_depends_on_iff name (dict fs) = check_depends_specs_iff name fs
check_depends_on_iff name null = always_iff
check_depends_on_iff name (bool _) = always_iff
check_depends_on_iff name (int _) = always_iff
check_depends_on_iff name (neg_int _) = always_iff
check_depends_on_iff name (str _) = always_iff
check_depends_on_iff name (other _ _ _) = always_iff

or_iff : (a b : Bool) → ((a || b) ≡ true) ↔ ((a ≡ true) ⊎ (b ≡ true))
or_iff true b = (λ h. inl refl, λ h. refl)
or_iff false b = (λ h. inr h, λ h. elim h [ inl e ↦ cc | inr e ↦ e ])

abbrev ServiceParts : Fields → Type 0
ServiceParts svc =
    ((has_key (key "image") svc ≡ true) ⊎ (has_key (key "build") svc ≡ true))
    × (IsNetworkList (get (key "networks") svc)
        × (IsDependsOn (get (key "depends_on") svc) × IsProfiles (get (key "profiles") svc)))

check_service_fields_iff :
    (name : Value) (svc : Fields) → (check_service_fields name svc ≡ []) ↔ IsService svc
unfolding check_service_fields
check_service_fields_iff name svc = (λ h. forward (parts.0 h), λ r. parts.1 (backward r))
  where
    parts : (check_service_fields name svc ≡ []) ↔ ServiceParts svc
    parts = both_iff _ _ (unless_iff _ (no_image_or_build name) (or_iff _ _)) (
        both_iff _ _ (unless_iff _ (service_networks name) (IsNetworkList-iff _)) (
          both_iff _ _ (check_depends_on_iff name _)
            (unless_iff _ (profiles_shape name) (IsProfiles-iff _))))

    forward : ServiceParts svc → IsService svc
    forward h = record { source = h.0; networks = h.1.0; depends_on = h.1.1.0; profiles = h.1.1.1 }

    backward : IsService svc → ServiceParts svc
    backward r = (r.source, (r.networks, (r.depends_on, r.profiles)))

check_service_iff : (name v : Value) → (check_service name v ≡ []) ↔ IsServiceValue v
check_service_iff name (dict svc) = check_service_fields_iff name svc
check_service_iff name null = never_iff _ _
check_service_iff name (bool _) = never_iff _ _
check_service_iff name (int _) = never_iff _ _
check_service_iff name (neg_int _) = never_iff _ _
check_service_iff name (str _) = never_iff _ _
check_service_iff name (list _) = never_iff _ _
check_service_iff name (other _ _ _) = never_iff _ _

check_services_iff : (fs : Fields) → (check_services fs ≡ []) ↔ EveryValue IsServiceValue fs
unfolding check_services
check_services_iff end = (λ h. tt, λ h. refl)
check_services_iff (field name v fs) =
    both_iff _ _ (check_service_iff name v) (check_services_iff fs)

check_services_value_iff : (v : Value) → (check_services_value v ≡ []) ↔ IsServices v
check_services_value_iff (dict end) = never_iff _ _
check_services_value_iff (dict (field k v fs)) = check_services_iff (field k v fs)
check_services_value_iff null = never_iff _ _
check_services_value_iff (bool _) = never_iff _ _
check_services_value_iff (int _) = never_iff _ _
check_services_value_iff (neg_int _) = never_iff _ _
check_services_value_iff (str _) = never_iff _ _
check_services_value_iff (list _) = never_iff _ _
check_services_value_iff (other _ _ _) = never_iff _ _

check_networks_iff : (v : Value) → (check_networks v ≡ []) ↔ IsNetworks v
check_networks_iff (dict fs) = check_network_specs_iff fs
check_networks_iff null = never_iff _ _
check_networks_iff (bool _) = never_iff _ _
check_networks_iff (int _) = never_iff _ _
check_networks_iff (neg_int _) = never_iff _ _
check_networks_iff (str _) = never_iff _ _
check_networks_iff (list _) = never_iff _ _
check_networks_iff (other _ _ _) = never_iff _ _

not_or_iff : (a : Bool) (v : Value) → ((not a || is_dict v) ≡ true) ↔ ((a ≡ false) ⊎ IsMapping v)
not_or_iff true v =
    (λ h. inr ((is_dict_iff v).0 h), λ h. elim h [ inl e ↦ cc | inr m ↦ (is_dict_iff v).1 m ])
not_or_iff false v = (λ h. inl refl, λ h. refl)

self_iff : (b : Bool) → (b ≡ true) ↔ (b ≡ true)
self_iff b = (λ h. h, λ h. h)

validate_fields_iff : (doc : Fields) → (validate_fields doc ≡ []) ↔ IsCompose doc
unfolding validate_fields
validate_fields_iff doc =
    let parts =
      both_iff _ _ (unless_iff (has_key (key "services") doc) missing_services_key (self_iff _)) (
        both_iff _ _ (check_networks_iff (get_default (key "networks") empty_dict doc)) (
          both_iff _ _
            (unless_iff (is_dict (get_default (key "volumes") empty_dict doc)) volumes_shape
              (is_dict_iff (get_default (key "volumes") empty_dict doc)))
            (both_iff _ _
              (unless_iff _ secrets_shape (
                not_or_iff (truthy (get_default (key "secrets") empty_dict doc))
                  (get_default (key "secrets") empty_dict doc)))
              (check_services_value_iff (get_default (key "services") empty_dict doc))))) in
    (
      λ h.
          let p = parts.0 h in
          record {
            has_services = p.0;
            networks = p.1.0;
            volumes = p.1.1.0;
            secrets = p.1.1.1.0;
            services = p.1.1.1.1;
          },
      λ r. parts.1 (r.has_services, (r.networks, (r.volumes, (r.secrets, r.services)))),
    )

-- `validate` reports no issue exactly for the documents of the right shape: a mapping with a
-- mapping of services in it, each with an image or a build, networks that are a list or a string,
-- dependencies on strings or mappings, and profiles in a list; and whose networks are a mapping of
-- mappings, whose volumes are a mapping, and whose secrets are one or are empty. Top-level keys of
-- other names, and a `depends_on` that is no list and no mapping, are not looked at.
pub validate_iff : (doc : Value) → (validate doc ≡ []) ↔ IsComposeValue doc
unfolding validate
validate_iff (dict doc) = validate_fields_iff doc
validate_iff null = never_iff _ _
validate_iff (bool _) = never_iff _ _
validate_iff (int _) = never_iff _ _
validate_iff (neg_int _) = never_iff _ _
validate_iff (str _) = never_iff _ _
validate_iff (list _) = never_iff _ _
validate_iff (other _ _ _) = never_iff _ _
