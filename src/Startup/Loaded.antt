-- ===== src/Startup/Loaded.antt =====
-- pkg/drivers/drivers.go: what the init function leaves for GetDriver.
use discoblock.Base.{
  ℕ, String, true, not, none, some, List, [], ◌∷◌, Map, put, get-put, str_eq, eq_iff, Bool-cases,
  ◌≡◌, ◌≢◌, ◌⊎◌, inl, inr, refl, arith, All, All-map,
}
use mathlib.Core.Path.{subst}
use discoblock.Kube.Exec.{Result, ok, err}
use discoblock.Kube.Exec.Returns.{
  Returns, Returns-pure, Returns-return, Returns-then, Returns-told, Returns-if,
  Returns-attempt-told, Returns-implies,
}
use discoblock.Startup.Calls.{Entry, Boot, System}
use discoblock.Startup.Load.{
  drivers_dir, driver_path, on_stat, read_module, load_driver, load_entries, load_drivers,
  get_driver,
}

-- A folder of that name was listed.
abbrev pub IsFolder : String → List Entry → Type 0
IsFolder name [] = ⊥
IsFolder name (e ∷ es) = ((e.name ≡ name) × (e.is_dir ≡ true)) ⊎ IsFolder name es

-- an exit of the process, with status 1
abbrev pub Exits : ℕ → Type 0
Exits status = status ≡ 1

module _ {M : Type 0} (sys : System M) where
  abbrev HasContent : String → String → Type 0
  HasContent name content = (h : List Boot) × (sys.read_file h (driver_path name) ≡ ok content)

  abbrev IsModule : String → M → Type 0
  IsModule content m = (h : List Boot) × (sys.compile h content ≡ ok m)

  -- The directory of the drivers has these entries.
  abbrev pub IsListing : List Entry → Type 0
  IsListing listed = (h : List Boot) × (sys.read_dir h drivers_dir ≡ ok listed)

  -- The module was compiled from the main.wasm of the folder.
  abbrev pub IsCompiled : String → M → Type 0
  IsCompiled name m =
      (h : List Boot) × (g : List Boot) × (content : String) × (sys.read_file h (driver_path name)
        ≡ ok content)
      × (sys.compile g content ≡ ok m)

  -- The main.wasm of the folder is there, whenever one looks.
  abbrev pub IsPresent : String → Type 0
  IsPresent name = (h : List Boot) → sys.stat h (driver_path name) ≡ ok tt

  -- Every driver is the compiled module of a listed folder.
  abbrev pub IsSound : List Entry → Map M → Type 0
  IsSound listed drivers =
      (name : String) (m : M)
      → get_driver drivers name ≡ some m
      → IsFolder name listed × IsCompiled name m

  -- Every listed folder with a main.wasm has a driver.
  abbrev pub IsComplete : Map M → Entry → Type 0
  IsComplete drivers e = e.is_dir ≡ true → IsPresent e.name → get_driver drivers e.name ≢ none

  abbrev Keeps : Map M → Map M → Type 0
  Keeps d d' = (name : String) → get_driver d name ≢ none → get_driver d' name ≢ none

  module _ (listed : List Entry) where
    put-IsSound :
        (name : String) (d : Map M) (m : M)
        → IsSound listed d
        → IsFolder name listed
        → IsCompiled name m
        → IsSound listed (put d name m)
    unfolding get_driver
    put-IsSound name d m sound folder compiled j n e = elim (Bool-cases (str_eq name j)) [
      | inl same ↦
          let is : some m ≡ some n = ground (arith, get-put d name j m) in
          subst (λ k. IsFolder k listed × IsCompiled k n) ((eq_iff name j).0 same)
            (folder, subst (λ x. IsCompiled name x) (cc) compiled)
      | inr other ↦ sound j n (ground (arith, get-put d name j m))
    ]

    put-Keeps : (name : String) (d : Map M) (m : M) → Keeps d (put d name m)
    unfolding get_driver
    put-Keeps name d m j k e = k (ground (arith, get-put d name j m))

    put_there : (name : String) (d : Map M) (m : M) → get_driver (put d name m) name ≢ none
    unfolding get_driver
    put_there name d m e = ground (arith, get-put d name name m, eq_iff name name)

    abbrev Stepped : Map M → Entry → Map M → Type 0
    Stepped d e d' = IsSound listed d' × Keeps d d' × IsComplete d' e

    read_module-Returns :
        (name : String) (d : Map M)
        → IsSound listed d
        → IsFolder name listed
        → Returns ⊥ Exits
            (λ d'. IsSound listed d' × Keeps d d' × (get_driver d' name ≢ none))
            (read_module sys name d)
    read_module-Returns name d sound folder =
        Returns-then (HasContent name) _ _
          (Returns-attempt-told (Boot.read_file (driver_path name))
            (λ h. sys.read_file h (driver_path name)) _ (λ e. Returns-return 1 refl)
            (λ h content told. (h, told)))
          λ content read.
            Returns-then (IsModule content) _ _
              (Returns-attempt-told (Boot.compile content) (λ h. sys.compile h content) _
                (λ e. Returns-return 1 refl) (λ g m told. (g, told)))
              λ m compiled. Returns-pure (put d name m) (
                put-IsSound name d m sound folder (read.0, compiled.0, content, read.1, compiled.1),
                put-Keeps name d m,
                put_there name d m,
              )

    on_stat-Returns :
        (e : Entry) (d : Map M) (h : List Boot) (r : Result String (Unit {0}))
        → IsSound listed d
        → IsFolder e.name listed
        → sys.stat h (driver_path e.name) ≡ r
        → Returns ⊥ Exits (Stepped d e) (on_stat sys e.name d r)
    on_stat-Returns e d h (err text) sound folder told =
        Returns-pure d (sound, (λ name k. k), λ dir present _. cc (present h, told))
    on_stat-Returns e d h (ok found) sound folder told =
        Returns-implies (λ d' q. (q.0, q.1, λ _ _. q.2)) _
          (read_module-Returns e.name d sound folder)

    load_driver-Returns :
        (e : Entry) (d : Map M)
        → IsSound listed d
        → (e.is_dir ≡ true → IsFolder e.name listed)
        → Returns ⊥ Exits (Stepped d e) (load_driver sys e d)
    unfolding load_driver
    load_driver-Returns e d sound folder =
        Returns-if (not e.is_dir) _ _
          (λ file. Returns-pure d (sound, (λ name k. k), λ dir _ _. ground (arith, file, dir)))
          (λ dir.
            Returns-then _ _ (λ found. on_stat sys e.name d found) (Returns-told _ _)
              λ r told. on_stat-Returns e d told.0 r sound (folder (ground (arith, dir))) told.1)

    load_entries-Returns :
        (entries : List Entry) (d : Map M)
        → IsSound listed d
        → All (λ (e : Entry). e.is_dir ≡ true → IsFolder e.name listed) entries
        → Returns ⊥ Exits
            (λ d'. IsSound listed d' × Keeps d d' × All (IsComplete d') entries)
            (load_entries sys entries d)
    unfolding load_entries
    load_entries-Returns [] d sound folders = Returns-pure d (sound, (λ name k. k), tt)
    load_entries-Returns (e ∷ es) d sound folders =
        Returns-then _ _ _ (load_driver-Returns e d sound folders.0) λ d1 s1.
          Returns-implies
            (λ d2 s2. (
              s2.0,
              (λ name k. s2.1 name (s1.1 name k)),
              ((λ dir there. s2.1 e.name (s1.2 dir there)), s2.2),
            ))
            _ (load_entries-Returns es d1 s1.0 folders.1)

  nothing_yet : (listed : List Entry) → IsSound listed []
  unfolding get_driver
  nothing_yet listed name m e = ground (arith, e)

  folders : (es : List Entry) → All (λ (e : Entry). e.is_dir ≡ true → IsFolder e.name es) es
  folders [] = tt
  folders (e ∷ es) = ((λ dir. inl (refl, dir)), All-map (λ _ k dir. inr (k dir)) es (folders es))

  -- The init function exits with status 1, or it leaves, for a list of the entries that the directory
  -- has, only drivers that are the compiled main.wasm of a folder on it, each under the folder's name,
  -- and one for every folder whose main.wasm is there whenever one looks.
  pub load_drivers-Returns :
      Returns ⊥ Exits
        (λ drivers.
          (listed : List Entry) × IsListing listed
          × IsSound listed drivers
          × All (IsComplete drivers) listed)
        (load_drivers sys)
  unfolding load_drivers
  load_drivers-Returns =
      Returns-then IsListing _ _
        (Returns-attempt-told (Boot.read_dir drivers_dir) (λ h. sys.read_dir h drivers_dir) _
          (λ e. Returns-return 1 refl) (λ h listed told. (h, told)))
        λ listed told.
          Returns-implies (λ drivers s. (listed, told, s.0, s.2)) _
            (load_entries-Returns listed listed [] (nothing_yet listed) (folders listed))
