-- ===== src/Startup/Settings.antt =====
-- main.go and api/v1/diskconfig_webhook_deps.go: what the process reads from its environment.
use discoblock.Base.{
  Char, code, String, Bool, true, false, Option, none, some, List, [], ◌∷◌, any, Map, get, put,
  get-put, ◌==◌, str_eq, eq_iff, if◌then◌else◌, ◌≡◌, refl, arith, ◌||◌,
}
use discoblock.Kube.Exec.{Result, ok}
use discoblock.Drivers.Host.{parse_bool}

-- parseBoolEnv, on what os.Getenv gave
unfoldable pub parse_bool_env : String → Result String Bool
unfolding parse_bool
parse_bool_env raw = if str_eq raw "" then ok false else parse_bool raw

-- `strings.ReplaceAll(s, " ", "")`
unfoldable pub remove_spaces : String → String
remove_spaces String.[] = ""
remove_spaces (String.◌∷◌ c s) =
    let rest = remove_spaces s in if code c == b' ' then rest else String.◌∷◌ c rest

abbrev pub push_first : Char → List String → List String
push_first c [] = String.◌∷◌ c "" ∷ []
push_first c (w ∷ ws) = String.◌∷◌ c w ∷ ws

-- `strings.Split(s, ",")`
unfoldable pub split_commas : String → List String
split_commas String.[] = "" ∷ []
split_commas (String.◌∷◌ c s) =
    let rest = split_commas s in if code c == b',' then "" ∷ rest else push_first c rest

-- the value of SUPPORTED_CSI_DRIVERS
unfoldable pub provisioners : String → List String
unfolding remove_spaces split_commas
provisioners value = split_commas (remove_spaces value)

unfoldable pub add_provisioners : List String → Map Bool → Map Bool
add_provisioners [] m = m
add_provisioners (p ∷ ps) m = add_provisioners ps (put m p true)

-- InitDiskConfigWebhookDeps: the set that the webhook looks its provisioners up in
unfoldable pub init_disk_config_webhook_deps : List String → Map Bool
unfolding add_provisioners
init_disk_config_webhook_deps ps = add_provisioners ps []

-- `provisioners[p]`, false for a missing key
abbrev pub is_in : Option Bool → Bool
is_in none = false
is_in (some b) = b

add_provisioners-get :
    (ps : List String) (m : Map Bool) (p : String)
    → is_in (get (add_provisioners ps m) p) ≡ (any (str_eq p) ps || is_in (get m p))
unfolding add_provisioners
add_provisioners-get [] m p = refl
add_provisioners-get (x ∷ xs) m p =
    ground
      (arith, add_provisioners-get xs (put m x true) p, get-put m x p true, eq_iff x p, eq_iff p x)

-- What the set answers is what the webhook's validation asks of the list.
pub init_disk_config_webhook_deps_lem :
    (ps : List String) (p : String)
    → is_in (get (init_disk_config_webhook_deps ps) p) ≡ any (str_eq p) ps
unfolding init_disk_config_webhook_deps get
init_disk_config_webhook_deps_lem ps p = ground (arith, add_provisioners-get ps [] p)

provisioners_run : provisioners " a, b" ≡ "a" ∷ "b" ∷ []
unfolding provisioners
provisioners_run = refl

-- A variable that is not set names one provisioner, the empty text.
provisioners_empty : provisioners "" ≡ "" ∷ []
unfolding provisioners
provisioners_empty = refl
