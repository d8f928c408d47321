-- ===== src/Examples/Disks.antt =====
-- pkg/diskinfo: Fetch at the output of df, with numbers read as their texts.
use discoblock.Base.{String, some, [], ◌∷◌, get, put, ◌≡◌, refl}
use discoblock.Kube.Exec.{Result, ok}
use discoblock.DiskInfo.{fetch, fields, without_percent, read_lines}
use discoblock.DiskInfo.Sound.{Some, Row, fetch_sound}

abbrev df : String
df = "Filesystem 1K-blocks Used Available Use% Mounted on\n/dev/x 100 81 19 81% /data-0\nx"

abbrev as_text : String → Result String String
as_text s = ok s

fetched : fetch as_text (ok "host:1") (λ a. ok df) ≡ ok (("/data-0", "81") ∷ [])
unfolding fetch read_lines fields without_percent put
fetched = refl

used : get {V = String} (("/data-0", "81") ∷ []) "/data-0" ≡ some "81"
unfolding get
used = refl

fetch_sound_example :
    (text : String) × (as_text df ≡ ok text) × Some (Row as_text "/data-0" "81") (read_lines text)
fetch_sound_example =
    fetch_sound as_text "host:1" (λ a. ok df) (("/data-0", "81") ∷ []) "/data-0" "81" fetched used
