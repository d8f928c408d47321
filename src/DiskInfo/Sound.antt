-- ===== src/DiskInfo/Sound.antt =====
-- pkg/diskinfo/diskinfo.go: where the percentages of Fetch come from.
use discoblock.Base.{
  String, some, List, [], ◌∷◌, Map, get, get-put, ◌≡◌, ◌⊎◌, inl, inr, refl, arith, eq_iff,
}
use discoblock.Kube.Exec.{Result, ok, err}
use discoblock.DiskInfo.{
  fields, without_percent, read_lines, add_used, add_parts, go_on, add_lines, read_content,
  on_content, telnet, fetch,
}

-- One of the elements satisfies the predicate.
abbrev pub Some {ℓ} : {A : Type ℓ} → (A → Type 0) → List A → Type 0
Some Q [] = ⊥
Some Q (x ∷ xs) = Q x ⊎ Some Q xs

module _ {F : Type 0} (parse_float : String → Result String F) where
  -- A line of six fields: the sixth is the mount point, and the fifth without its last character is
  -- read as the number.
  abbrev pub Row : String → F → String → Type 0
  Row mount_point used line =
      (a b c d percent : String) × (fields line ≡ a ∷ b ∷ c ∷ d ∷ percent ∷ mount_point ∷ [])
      × (parse_float (without_percent percent) ≡ ok used)

  added :
      (info info' : Map F) (mp number mount_point : String) (used : F) (r : Result String F)
      → add_used parse_float info mp number r ≡ ok info'
      → get info' mount_point ≡ some used
      → (get info mount_point ≡ some used) ⊎ ((mp ≡ mount_point) × (r ≡ ok used))
  added info info' mp number mount_point used (ok u) e g =
      ground (arith, get-put info mp mount_point u, eq_iff mp mount_point)
  added info info' mp number mount_point used (err m) e g = ground arith

  parted :
      (info info' : Map F) (line mount_point : String) (used : F) (parts : List String)
      → fields line ≡ parts
      → add_parts parse_float info line parts ≡ ok info'
      → get info' mount_point ≡ some used
      → (get info mount_point ≡ some used) ⊎ Row mount_point used line
  parted info info' line mount_point used [] f e g = ground arith
  parted info info' line mount_point used (a ∷ []) f e g = ground arith
  parted info info' line mount_point used (a ∷ b ∷ []) f e g = ground arith
  parted info info' line mount_point used (a ∷ b ∷ c ∷ []) f e g = ground arith
  parted info info' line mount_point used (a ∷ b ∷ c ∷ d ∷ []) f e g = ground arith
  parted info info' line mount_point used (a ∷ b ∷ c ∷ d ∷ p ∷ []) f e g = ground arith
  parted info info' line mount_point used (a ∷ b ∷ c ∷ d ∷ p ∷ mp ∷ []) f e g =
      elim (added info info' mp (without_percent p) mount_point used _ e g) [
        | inl old ↦ inl old
        | inr new ↦ inr (a, b, c, d, p, rw (← new.0) f, new.1)
      ]
  parted info info' line mount_point used (a ∷ b ∷ c ∷ d ∷ p ∷ mp ∷ x ∷ xs) f e g = ground arith

  going :
      (r : Result String (Map F)) (k : Map F → Result String (Map F)) (info' : Map F)
      → go_on parse_float r k ≡ ok info'
      → (info : Map F) × (r ≡ ok info) × (k info ≡ ok info')
  going (ok info) k info' e = (info, refl, e)
  going (err m) k info' e = ground arith

  lined :
      (lines : List String) (info info' : Map F) (mount_point : String) (used : F)
      → add_lines parse_float lines info ≡ ok info'
      → get info' mount_point ≡ some used
      → (get info mount_point ≡ some used) ⊎ Some (Row mount_point used) lines
  unfolding add_lines
  lined [] info info' mount_point used e g = ground (arith, e, g)
  lined (line ∷ rest) info info' mount_point used e g =
      let (next, here, later) = going _ (add_lines parse_float rest) info' e in
      elim (lined rest next info' mount_point used later g) [
        | inr row ↦ inr (inr row)
        | inl before ↦
            elim (parted info next line mount_point used (fields line) refl here before) [
              | inl old ↦ inl old
              | inr row ↦ inr (inl row)
            ]
      ]

  read_content_sound :
      (content : List String) (info : Map F) (mount_point : String) (used : F)
      → read_content parse_float content ≡ ok info
      → get info mount_point ≡ some used
      → Some (Row mount_point used) content
  unfolding get
  read_content_sound [] info mount_point used e g = ground arith
  read_content_sound (header ∷ []) info mount_point used e g = ground arith
  read_content_sound (header ∷ line ∷ rest) info mount_point used e g =
      elim (lined (line ∷ rest) [] info mount_point used e g) [
        | inl none_there ↦ ground arith
        | inr row ↦ inr row
      ]

  -- Every percentage that Fetch gives for a mount point was read from a line of the text that the
  -- connection gave: a line of six fields, whose sixth is the mount point.
  pub fetch_sound :
      (address : String) (connect : String → Result String String) (info : Map F)
      (mount_point : String) (used : F)
      → fetch parse_float (ok address) connect ≡ ok info
      → get info mount_point ≡ some used
      → (text : String) × (connect address ≡ ok text)
        × Some (Row mount_point used) (read_lines text)
  unfolding fetch
  fetch_sound address connect info mount_point used e g = answered (connect address) refl e
    where
      answered :
          (r : Result String String)
          → connect address ≡ r
          → on_content parse_float address (telnet r) ≡ ok info
          → (text : String) × (connect address ≡ ok text)
            × Some (Row mount_point used) (read_lines text)
      answered (ok text) c e =
          (text, c, read_content_sound (read_lines text) info mount_point used e g)
      answered (err m) c e = ground arith
