-- ===== src/Webhook/Accepted.antt =====
-- api/v1/diskconfig_webhook.go: the answers of validate.
use discoblock.Base.{
  any, sym, Among, Bool-cases, inl, inr, [], ◌∷◌, ◌≤◌, String, Bool, true, false, not, Option, none,
  some, List, ◌≡◌, ◌≢◌, refl, ap, ◌∙◌, arith, str_eq, eq_iff, is_some, ◌&&◌, if◌then◌else◌,
}
use discoblock.Base.Int.{ℤ, ◌≤ℤ◌, leb_ℤ}
use discoblock.Kube.Objects.{DiskConfig, DiskConfigSpec, StorageClass}
use discoblock.Kube.Quantity.{Quantities, below, is_set}
use discoblock.Kube.Exec.{ok}
use discoblock.Kube.Exec.Returns.{
  Returns, return_rules, Returns-then, Returns-answer, Returns-pure, Returns-crash, Returns-return,
  Returns-if,
}
use discoblock.Kube.Api.{Api, Call, History}
use discoblock.Webhook.{
  OldObject, check_update, check_spec, count_verbs, has_reserved, validate_mount_pattern,
  min_cool_down, validate, or_else, reject, judge,
}

pub record Allowed (q : Quantities) (config : DiskConfig) (old : OldObject) : Type 0 where
  pub class_named : config.spec.storage_class_name ≢ ""
  pub within_max :
      (is_set q config.spec.policy.maximum_capacity_of_disk
        && below q config.spec.policy.maximum_capacity_of_disk config.spec.capacity)
      ≡ false
  pub one_verb : count_verbs false config.spec.mount_point_pattern ≤ 1
  pub plain_path : has_reserved config.spec.mount_point_pattern ≡ false
  pub cooled : min_cool_down ≤ℤ config.spec.policy.cool_down
  pub update_allowed : check_update q old config.spec ≡ none

-- The StorageClass of the object, as the server answered it, is of a provisioner that is supported and
-- has a driver, and the driver answered that the class is valid.
pub record Driven (api : Api) (provisioners : List String) (name : String) : Type 0 where
  pub before_class : History
  pub before_driver : History
  pub class : StorageClass
  pub found : api.get_storage_class before_class name ≡ ok class
  pub supported : Among class.provisioner provisioners
  pub has_driver : api.has_driver class.provisioner ≡ true
  pub valid : api.is_storage_class_valid before_driver class.provisioner class ≡ ok true

-- The object passes all checks.
pub record Passes (q : Quantities) (api : Api) (provisioners : List String) (config : DiskConfig)
    (old : OldObject) : Type 0 where
  pub allowed : Allowed q config old
  pub driven : Driven api provisioners config.spec.storage_class_name

any-Among : (p : String) (l : List String) → any (str_eq p) l ≡ true → Among p l
any-Among p [] h = ground arith
any-Among p (x ∷ l) h = elim (Bool-cases (str_eq p x)) [
  | inl e ↦ inl (sym ((eq_iff p x).0 e))
  | inr e ↦ inr (any-Among p l (ground (arith, e, h)))
]

pattern_sound :
    (pattern : String)
    → validate_mount_pattern pattern ≡ none
    → (count_verbs false pattern ≤ 1) × (has_reserved pattern ≡ false)
unfolding validate_mount_pattern
pattern_sound pattern h = ground arith

or_else-none : (a b : Option String) → or_else a b ≡ none → (a ≡ none) × (b ≡ none)
or_else-none none b h = (refl, h)
or_else-none (some e) b h = ground arith

cool_sound :
    (c : ℤ) (e : String)
    → (if not (leb_ℤ min_cool_down c) then some e else none) ≡ none
    → min_cool_down ≤ℤ c
cool_sound c e h = ground arith

spec_split :
    (q : Quantities) (spec : DiskConfigSpec)
    → check_spec q spec ≡ none
    → (str_eq spec.storage_class_name "" ≡ false)
      × ((is_set q spec.policy.maximum_capacity_of_disk
            && below q spec.policy.maximum_capacity_of_disk spec.capacity)
          ≡ false)
      × (or_else (validate_mount_pattern spec.mount_point_pattern) (
            if not (leb_ℤ min_cool_down spec.policy.cool_down)
            then some "minimum cool down is 10 seconds"
            else none)
          ≡ none)
unfolding check_spec
spec_split q spec h = ground arith

Allowed-intro :
    (q : Quantities) (config : DiskConfig) (old : OldObject)
    → check_spec q config.spec ≡ none
    → check_update q old config.spec ≡ none
    → Allowed q config old
Allowed-intro q config old h k =
    let (named, max, rest) = spec_split q config.spec h in
    let (pattern, cool) = or_else-none _ _ rest in
    let (verbs, plain) = pattern_sound _ pattern in
    record {
      class_named = λ e. ground (arith, eq_iff config.spec.storage_class_name "");
      within_max = max;
      one_verb = verbs;
      plain_path = plain;
      cooled = cool_sound _ _ cool;
      update_allowed = k;
    }

reject-Returns :
    {X : Type 0} (o : Option String)
    → Returns {C = Call} X (λ r. is_some r ≡ true) (λ _. o ≡ none) (reject o)
reject-Returns none = search (return_rules, refl)
reject-Returns (some e) = search (return_rules, refl)

-- a driver's answer that refuses a StorageClass without an error
abbrev pub SilentRefusal : Api → Type 0
SilentRefusal api =
    (h : List Call) × (p : String) × (sc : StorageClass) × (api.is_storage_class_valid h p sc
      ≡ ok false)

judge-Returns :
    {X : Type 0} {P : Option String → Type 0} (A : Type 0) (valid : Bool)
    → (valid ≡ false → X)
    → (valid ≡ true → A)
    → Returns {C = Call} X P (λ r. (r ≡ none) × A) (judge valid)
judge-Returns A true x a = Returns-pure none (refl, a refl)
judge-Returns A false x a = Returns-crash (x refl)

-- Every early return of the validation is an error. It ends without one only for an object that
-- passes the checks of its fields and those against the old object, and whose StorageClass, as the
-- server answers it, has a supported provisioner with a driver that answers that the class is valid. It
-- panics only where a driver refuses a StorageClass without an error.
pub validate-Returns :
    (q : Quantities) (api : Api) (provisioners : List String) (config : DiskConfig)
    (old : OldObject)
    → Returns
        (SilentRefusal api)
        (λ r. is_some r ≡ true)
        (λ r. (r ≡ none) × Passes q api provisioners config old)
        (validate q api provisioners config old)
unfolding validate
validate-Returns q api provisioners config old = Returns-then _ _ _ (reject-Returns _) λ _ h.
    Returns-then _ _ _ (reject-Returns _) λ _ k.
      Returns-answer _ _ _ _ (λ e. refl)
        λ f sc found.
          Returns-then (λ _. any (str_eq sc.provisioner) provisioners ≡ true) _ _
            (Returns-if _ _ _ (λ e. Returns-pure tt e) (λ _. Returns-return _ refl))
            λ _ supported.
              Returns-then (λ _. api.has_driver sc.provisioner ≡ true) _ _
                (Returns-if _ _ _ (λ e. Returns-pure tt e) (λ _. Returns-return _ refl))
                λ _ driver.
                  Returns-answer _ _ _ _ (λ e. refl)
                    λ g valid e.
                      judge-Returns (Passes q api provisioners config old) valid
                        (λ r. (g, sc.provisioner, sc, e ∙ ap ok r))
                        λ r. (record {
                          allowed = Allowed-intro q config old h k;
                          driven = record {
                            before_class = f;
                            before_driver = g;
                            class = sc;
                            found = found;
                            supported = any-Among sc.provisioner provisioners supported;
                            has_driver = driver;
                            valid = e ∙ ap ok r;
                          };
                        })
