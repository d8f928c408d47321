-- ===== src/Drivers/Verdict.antt =====
-- pkg/drivers/drivers.go: IsStorageClassValid with the repository's drivers inside.
use discoblock.Base.{
  String, Bool, true, false, not, ◌&&◌, ◌||◌, [], ◌∷◌, Map, label, get, str_eq, eq_iff,
  if◌then◌else◌, arith, ◌≡◌, ◌≢◌, refl, sym, ap, ◌∙◌,
}
use discoblock.Kube.Objects.{StorageClass}
use discoblock.Kube.Exec.{Result, ok, err}
use discoblock.Drivers.Program.{FastJson, Output}
use discoblock.Drivers.StorageOs
use discoblock.Drivers.Ebs
use discoblock.Drivers.Host.{
  Wasmer, Json, wrap, ◌>>=◌, parse_bool, init, call_export, start_export, is_storage_class_valid,
}

-- An instance made with an environment runs the program: a called export leaves what it prints to be read.
pub record Runs {S : Type 0} (wasmer : Wasmer S) (program : Map String → String → Output)
    : Type 0 where
  pub printed :
      (envs : Map String) (s : S)
      → init wasmer envs ≡ ok s
      → (name : String) (s' : S) → wasmer.run s name ≡ ok s'
      → ((wasmer.read_stderr s').0 ≡ (program envs name).stderr)
        × ((wasmer.read_stdout (wasmer.read_stderr s').1).0 ≡ (program envs name).stdout)

wrap_ok :
    {A : Type 0} (context : String) (r : Result String A) (a : A) → wrap context r ≡ ok a → r ≡ ok a
wrap_ok context (ok b) a h = h
wrap_ok context (err e) a h = ground arith

bind_ok :
    {A B : Type 0} (r : Result String A) (f : A → Result String B) (b : B)
    → (r >>= f) ≡ ok b
    → (a : A) × ((r ≡ ok a) × (f a ≡ ok b))
bind_ok (ok a) f b h = (a, (refl, h))
bind_ok (err e) f b h = ground arith

ok_injective : {A : Type 0} (a b : A) → ◌≡◌ {A = Result String A} (ok a) (ok b) → a ≡ b
ok_injective a b h = ground arith

test_ok :
    {A : Type 0} (b : Bool) (x : A) (e : String) (a : A)
    → (if b then ok x else err e) ≡ ok a
    → (b ≡ true) × (x ≡ a)
test_ok b x e a h = ground arith

-- A program that refuses a StorageClass says why, and what it answers without a complaint is true.
abbrev Judges : (Map String → String → Output) → (String → Type 0) → Type 0
Judges program Good =
    (raw : String)
    → (program (("STORAGE_CLASS_JSON", raw) ∷ []) "IsStorageClassValid").stderr ≡ ""
    → ((program (("STORAGE_CLASS_JSON", raw) ∷ []) "IsStorageClassValid").stdout ≡ "true")
      × Good raw

module _ {S : Type 0} (wasmer : Wasmer S) (program : Map String → String → Output)
    (runs : Runs wasmer program) where
  call_export_ok :
      (envs : Map String) (s : S) (name : String) (t : S)
      → init wasmer envs ≡ ok s
      → call_export wasmer name s ≡ ok t
      → ((program envs name).stderr ≡ "") × ((wasmer.read_stdout t).0 ≡ (program envs name).stdout)
  unfolding call_export
  call_export_ok envs s name t started h =
      let (_, (_, called)) = bind_ok (wrap _ (wasmer.get_raw_function s name)) _ t h in
      let (s', (ran, checked)) = bind_ok (wrap _ (wasmer.run s name)) _ t called in
      let (complained, told) = runs.printed envs s started name s' (wrap_ok _ _ s' ran) in
      let (quiet, same) = test_ok _ _ _ t checked in
      (sym complained ∙ (eq_iff _ "").0 quiet, ap (λ u. (wasmer.read_stdout u).0) (sym same) ∙ told)

  start_export_ok :
      (name : String) (envs : Map String) (t : S)
      → start_export wasmer name envs ≡ ok t
      → ((program envs name).stderr ≡ "") × ((wasmer.read_stdout t).0 ≡ (program envs name).stdout)
  unfolding start_export
  start_export_ok name envs t h =
      let (s, (started, called)) = bind_ok (wrap _ (init wasmer envs)) _ t h in
      call_export_ok envs s name t (wrap_ok _ _ s started) called

  parse_true : parse_bool "true" ≡ ok true
  unfolding parse_bool
  parse_true = refl

  judged :
      (json : Json) (Good : String → Type 0)
      → Judges program Good
      → (sc : StorageClass) (b : Bool) → is_storage_class_valid wasmer json sc ≡ ok b
      → (b ≡ true) × ((raw : String) × ((json.encode_class sc ≡ ok raw) × Good raw))
  unfolding is_storage_class_valid
  judged json Good judges sc b h =
      let (raw, (encoded, rest)) = bind_ok (wrap _ (json.encode_class sc)) _ b h in
      let (t, (called, parsed)) = bind_ok _ _ b rest in
      let (quiet, said) = start_export_ok "IsStorageClassValid" _ t called in
      let (said_true, good) = judges raw quiet in
      let read : ok b ≡ parse_bool "true" =
        sym (wrap_ok _ _ b parsed) ∙ ap parse_bool (said ∙ said_true) in
      (ok_injective b true (read ∙ parse_true), (raw, (wrap_ok _ _ raw encoded, good)))

-- What the StorageOS driver asks of the JSON of a StorageClass.
abbrev pub StorageOsGood : FastJson → String → Type 0
StorageOsGood json raw =
    ((json.exists raw "volumeBindingMode"
        && not (str_eq (json.get_string raw ("volumeBindingMode" ∷ [])) "Immediate"))
      ≡ false)
    × ((json.exists raw "allowVolumeExpansion" ≡ true)
        × (json.get_bool raw "allowVolumeExpansion" ≡ true))

-- What the EBS driver asks of it.
abbrev pub EbsGood : FastJson → String → Type 0
EbsGood json raw =
    (json.exists raw "allowVolumeExpansion" ≡ true)
    × (json.get_bool raw "allowVolumeExpansion" ≡ true)

-- the outcome of a test whose failure is complained of
no_complaint :
    (b : Bool) (complaint : String) (rest : Output)
    → complaint ≢ ""
    → (if b then record { stdout = "false"; stderr = complaint } else rest).stderr ≡ ""
    → (b ≡ false) × ((if b then record { stdout = "false"; stderr = complaint } else rest) ≡ rest)
no_complaint true complaint rest ne h = elim (ne h) [ ]
no_complaint false complaint rest ne h = (refl, refl)

both_true : (a b : Bool) → (not a || not b) ≡ false → (a ≡ true) × (b ≡ true)
both_true a b h = ground arith

expansion_text : ◌≢◌ {A = String} "only allowVolumeExpansion true is supported" ""
expansion_text e = ground (arith, eq_iff "only allowVolumeExpansion true is supported" "")

binding_text : ◌≢◌ {A = String} "only volumeBindingMode Immediate is supported" ""
binding_text e = ground (arith, eq_iff "only volumeBindingMode Immediate is supported" "")

StorageOs-Judges : (json : FastJson) → Judges (StorageOs.run_export json) (StorageOsGood json)
unfolding StorageOs.run_export label get
StorageOs-Judges json raw h =
    let (bound, first) = no_complaint _ _ _ binding_text h in
    let (allowed, second) =
      no_complaint _ _ _ expansion_text (sym (ap (λ (o : Output). o.stderr) first) ∙ h) in
    (ap (λ (o : Output). o.stdout) (first ∙ second), (bound, both_true _ _ allowed))

Ebs-Judges : (json : FastJson) → Judges (Ebs.run_export json) (EbsGood json)
unfolding Ebs.run_export label get
Ebs-Judges json raw h =
    let (allowed, first) = no_complaint _ _ _ expansion_text h in
    (ap (λ (o : Output). o.stdout) first, both_true _ _ allowed)

-- Where the host runs the StorageOS driver and answers without an error, the answer is true, and the
-- JSON of the StorageClass allows volume expansion and names no binding mode but Immediate.
pub storage_os_judged :
    {S : Type 0} (wasmer : Wasmer S) (json : Json) (reader : FastJson)
    → Runs wasmer (StorageOs.run_export reader)
    → (sc : StorageClass) (b : Bool) → is_storage_class_valid wasmer json sc ≡ ok b
    → (b ≡ true) × ((raw : String) × ((json.encode_class sc ≡ ok raw) × StorageOsGood reader raw))
storage_os_judged wasmer json reader runs sc b h =
    judged wasmer (StorageOs.run_export reader) runs json (StorageOsGood reader)
      (StorageOs-Judges reader) sc b h

-- Where the host runs the EBS driver and answers without an error, the answer is true, and the JSON
-- of the StorageClass allows volume expansion.
pub ebs_judged :
    {S : Type 0} (wasmer : Wasmer S) (json : Json) (reader : FastJson)
    → Runs wasmer (Ebs.run_export reader)
    → (sc : StorageClass) (b : Bool) → is_storage_class_valid wasmer json sc ≡ ok b
    → (b ≡ true) × ((raw : String) × ((json.encode_class sc ≡ ok raw) × EbsGood reader raw))
ebs_judged wasmer json reader runs sc b h =
    judged wasmer (Ebs.run_export reader) runs json (EbsGood reader) (Ebs-Judges reader) sc b h
