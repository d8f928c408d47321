-- ===== src/DiskInfo.antt =====
-- pkg/diskinfo/diskinfo.go and pkg/diskinfo/telnet.go: Fetch and Telnet. The proxy's address, the text
-- that the connection gives until its end, and ParseFloat with its 32 bits are parameters.
pub mod Sound
pub mod Proxy
use Prim.Native.String.{len, slice}
use discoblock.Base.{
  ℕ, ◌-◌, ◌==◌, String, ◌⧺◌, code, Char, Bool, true, false, ◌||◌, ◌&&◌, List, [], ◌∷◌, Map, put,
  if◌then◌else◌, leb,
}
use discoblock.Kube.Exec.{Result, ok, err}

-- unicode.IsSpace
abbrev pub is_space : ℕ → Bool
is_space n =
    (leb 9 n && leb n 13)
    || n == 32
    || n == 133
    || n == 160
    || n == 5760
    || (leb 8192 n && leb n 8202)
    || n == 8232
    || n == 8233
    || n == 8239
    || n == 8287
    || n == 12288

abbrev pub push_word : String → List String → List String
push_word String.[] words = words
push_word (String.◌∷◌ c s) words = String.◌∷◌ c s ∷ words

-- the word at the front of a text, and the words behind it
unfoldable pub split_words : String → String × List String
split_words String.[] = ("", [])
split_words (String.◌∷◌ c s) =
    let (word, words) = split_words s in
    if is_space (code c) then ("", push_word word words) else (String.◌∷◌ c word, words)

-- strings.Fields
unfoldable pub fields : String → List String
unfolding split_words
fields s = let (word, words) = split_words s in push_word word words

abbrev pub push_char : Char → List String → List String
push_char c [] = []
push_char c (line ∷ lines) = String.◌∷◌ c line ∷ lines

-- The lines that Telnet reads: what has no line break at its end is dropped.
unfoldable pub read_lines : String → List String
read_lines String.[] = []
read_lines (String.◌∷◌ c s) =
    let lines = read_lines s in if code c == 10 then "" ∷ lines else push_char c lines

abbrev pub telnet : Result String String → Result String (List String)
telnet (ok text) = ok (read_lines text)
telnet (err e) = err e

-- `parts[4][:len(parts[4])-1]`
unfoldable pub without_percent : String → String
without_percent s = slice s 0 (len s - 1)

module _ {F : Type 0} (parse_float : String → Result String F) where
  abbrev pub add_used : Map F → String → String → Result String F → Result String (Map F)
  add_used info mount_point number (ok used) = ok (put info mount_point used)
  add_used info mount_point number (err e) = err ("unable to parse float by " ⧺ number ⧺ ": " ⧺ e)

  abbrev pub add_parts : Map F → String → List String → Result String (Map F)
  add_parts info line (a ∷ b ∷ c ∷ d ∷ percent ∷ mount_point ∷ []) =
      add_used info mount_point (without_percent percent) (parse_float (without_percent percent))
  add_parts info line _ = err ("unable to find valid disk info: " ⧺ line)

  abbrev pub go_on : Result String (Map F) → (Map F → Result String (Map F)) → Result String (Map F)
  go_on (ok info) k = k info
  go_on (err e) k = err e

  unfoldable pub add_lines : List String → Map F → Result String (Map F)
  unfolding fields without_percent
  add_lines [] info = ok info
  add_lines (line ∷ rest) info = go_on (add_parts info line (fields line)) (add_lines rest)

  abbrev pub read_content : List String → Result String (Map F)
  read_content [] = err "empty content"
  read_content (header ∷ []) = err "empty content"
  read_content (header ∷ line ∷ rest) = add_lines (line ∷ rest) []

  abbrev pub on_content : String → Result String (List String) → Result String (Map F)
  on_content address (err e) = err ("unable to call endpoint " ⧺ address ⧺ ": " ⧺ e)
  on_content address (ok content) = read_content content

  unfoldable pub fetch :
      Result String String → (String → Result String String) → Result String (Map F)
  unfolding add_lines read_lines
  fetch (err e) connect = err ("unable to find proxy: " ⧺ e)
  fetch (ok address) connect = on_content address (telnet (connect address))
