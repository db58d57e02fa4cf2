-- ===== src/Winfs/Names.antt =====
-- The file names of src/winfs/names.rs. Characters are code points. `char::to_uppercase` is an
-- argument of the comparisons, already cut to the characters with one upper-case character.
pub mod Paths
pub mod Joined
pub mod Matches
use hf_mount.Base.{
  ℕ, zero, suc, ◌+◌, ◌-◌, Bool, true, false, not, ◌&&◌, ◌||◌, Option, none, some, List, [], ◌∷◌,
  ◌++◌, length, nat_beq, ltb, leb, if◌then◌else◌, Text, codes, ◌==◌, text_eq, drop,
}
use hf_mount.Flush.Deletes.{starts_with}
use hf_mount.Inode.Entry.{is_empty}

pub data NameProblem : Type 0 where
  empty dot_or_dot_dot : NameProblem
  invalid_char : ℕ → NameProblem
  trailing_dot_or_space reserved_device_name too_long : NameProblem

abbrev pub max_component_utf16 : ℕ
max_component_utf16 = 255

-- The superscript digits one, two and three are 185, 178 and 179.
abbrev pub reserved_device_names : List Text
reserved_device_names =
    codes "CON"
    ∷ codes "PRN"
    ∷ codes "AUX"
    ∷ codes "NUL"
    ∷ codes "CONIN$"
    ∷ codes "CONOUT$"
    ∷ codes "COM0"
    ∷ codes "COM1"
    ∷ codes "COM2"
    ∷ codes "COM3"
    ∷ codes "COM4"
    ∷ codes "COM5"
    ∷ codes "COM6"
    ∷ codes "COM7"
    ∷ codes "COM8"
    ∷ codes "COM9"
    ∷ (codes "COM" ++ 185 ∷ [])
    ∷ (codes "COM" ++ 178 ∷ [])
    ∷ (codes "COM" ++ 179 ∷ [])
    ∷ codes "LPT0"
    ∷ codes "LPT1"
    ∷ codes "LPT2"
    ∷ codes "LPT3"
    ∷ codes "LPT4"
    ∷ codes "LPT5"
    ∷ codes "LPT6"
    ∷ codes "LPT7"
    ∷ codes "LPT8"
    ∷ codes "LPT9"
    ∷ (codes "LPT" ++ 185 ∷ [])
    ∷ (codes "LPT" ++ 178 ∷ [])
    ∷ (codes "LPT" ++ 179 ∷ [])
    ∷ []

abbrev pub is_one_of : ℕ → Text → Bool
is_one_of c [] = false
is_one_of c (x ∷ xs) = nat_beq c x || is_one_of c xs

unfoldable pub is_invalid_char : ℕ → Bool
is_invalid_char c = is_one_of c (codes "<>:\"/\\|?*") || ltb c 32

unfoldable pub to_ascii_uppercase : Text → Text
to_ascii_uppercase [] = []
to_ascii_uppercase (c ∷ text) =
    (if leb 97 c && leb c 122 then c - 32 else c) ∷ to_ascii_uppercase text

abbrev pub any_eq_ignore_ascii_case : List Text → Text → Bool
any_eq_ignore_ascii_case [] name = false
any_eq_ignore_ascii_case (r ∷ rs) name =
    to_ascii_uppercase r == to_ascii_uppercase name || any_eq_ignore_ascii_case rs name

unfoldable pub is_reserved_device_name : Text → Bool
is_reserved_device_name name = any_eq_ignore_ascii_case reserved_device_names name

abbrev pub is_dot_or_dot_dot : Text → Bool
is_dot_or_dot_dot name = name == codes "." || name == codes ".."

unfoldable pub find : (ℕ → Bool) → Text → Option ℕ
find test [] = none
find test (c ∷ text) = let later = find test text in if test c then some c else later

unfoldable pub ends_with : Text → ℕ → Bool
ends_with [] c = false
ends_with (x ∷ xs) c = let later = ends_with xs c in if is_empty xs then nat_beq x c else later

-- `name.encode_utf16().count()`
unfoldable pub utf16_count : Text → ℕ
utf16_count [] = 0
utf16_count (c ∷ text) = (if ltb c 65536 then 1 else 2) + utf16_count text

unfoldable pub windows_name_problem : Text → Option NameProblem
windows_name_problem name =
    if is_empty name
    then some empty
    else if is_dot_or_dot_dot name
    then some dot_or_dot_dot
    else elim (find is_invalid_char name) [
      | some c ↦ some (invalid_char c)
      | none ↦
          if ends_with name 46 || ends_with name 32
          then some trailing_dot_or_space
          else if is_reserved_device_name name
          then some reserved_device_name
          else if ltb max_component_utf16 (utf16_count name)
          then some too_long
          else none
    ]

pub data PathError : Type 0 where
  malformed : PathError
  invalid_component : NameProblem → PathError

-- `Result<Vec<&str>, PathError>`
pub data Split : Type 0 where
  components : List Text → Split
  refused : PathError → Split

abbrev pub put_first : ℕ → List Text → List Text
put_first x [] = (x ∷ []) ∷ []
put_first x (w ∷ ws) = (x ∷ w) ∷ ws

unfoldable pub split_on : ℕ → Text → List Text
split_on c [] = [] ∷ []
split_on c (x ∷ xs) =
    let rest = split_on c xs in if nat_beq x c then [] ∷ rest else put_first x rest

-- `rest.strip_suffix('\\').unwrap_or(rest)`
unfoldable pub without_last : ℕ → Text → Text
without_last c [] = []
without_last c (x ∷ xs) =
    let rest = without_last c xs in if is_empty xs && nat_beq x c then [] else x ∷ rest

unfoldable pub is_stream_char : ℕ → Bool
is_stream_char c = nat_beq c 58 || nat_beq c 47 || ltb c 32

abbrev pub push_component : Text → Split → Split
push_component w (components ws) = components (w ∷ ws)
push_component w (refused e) = refused e

-- The loop over the components.
unfoldable pub check_components : List Text → Split
check_components [] = components []
check_components (w ∷ ws) =
    let rest = check_components ws in
    if is_empty w
    then refused malformed
    else if is_dot_or_dot_dot w
    then refused (invalid_component dot_or_dot_dot)
    else elim (find is_stream_char w) [
      | some c ↦ refused (invalid_component (invalid_char c))
      | none ↦ push_component w rest
    ]

unfoldable pub split_path : Text → Split
split_path [] = refused malformed
split_path (c ∷ rest) =
    if nat_beq c 92
    then if is_empty rest
      then components []
      else check_components (split_on 92 (without_last 92 rest))
    else refused malformed

-- `eq_ignore_case`, with the upcase table.
unfoldable pub eq_ignore_case : (ℕ → ℕ) → Text → Text → Bool
eq_ignore_case upcase [] [] = true
eq_ignore_case upcase (c ∷ a) (d ∷ b) =
    let rest = eq_ignore_case upcase a b in if nat_beq (upcase c) (upcase d) then rest else false
eq_ignore_case upcase _ _ = false

-- The loop of `unique_case_insensitive_match`, with `found`.
unfoldable pub match_loop : (ℕ → ℕ) → Text → Option Text → List Text → Option Text
match_loop upcase wanted found [] = found
match_loop upcase wanted found (candidate ∷ candidates) =
    if eq_ignore_case upcase wanted candidate
    then elim found [
      | some other ↦ none
      | none ↦ match_loop upcase wanted (some candidate) candidates
    ]
    else match_loop upcase wanted found candidates

abbrev pub unique_case_insensitive_match : (ℕ → ℕ) → Text → List Text → Option Text
unique_case_insensitive_match upcase wanted candidates = match_loop upcase wanted none candidates

unfoldable pub to_ascii_lowercase : Text → Text
to_ascii_lowercase [] = []
to_ascii_lowercase (c ∷ text) =
    (if leb 65 c && leb c 90 then c + 32 else c) ∷ to_ascii_lowercase text

abbrev pub probes : List Text
probes =
    codes "desktop.ini"
    ∷ codes "autorun.inf"
    ∷ codes "thumbs.db"
    ∷ codes "ehthumbs.db"
    ∷ codes "ehthumbs_vista.db"
    ∷ codes "folder.jpg"
    ∷ codes "folder.gif"
    ∷ codes "folder.png"
    ∷ codes "$recycle.bin"
    ∷ codes "recycler"
    ∷ codes "system volume information"
    ∷ codes "$extend"
    ∷ codes "$mft"
    ∷ codes "pagefile.sys"
    ∷ codes "hiberfil.sys"
    ∷ codes "swapfile.sys"
    ∷ codes "dumpstack.log.tmp"
    ∷ codes "indexervolumeguid"
    ∷ codes "wpsettings.dat"
    ∷ []

abbrev pub has_text : List Text → Text → Bool
has_text [] name = false
has_text (p ∷ ps) name = p == name || has_text ps name

abbrev pub ends_with_text : Text → Text → Bool
ends_with_text text suffix =
    leb (length suffix) (length text) && drop (length text - length suffix) text == suffix

unfoldable pub is_shell_probe_name : Text → Bool
is_shell_probe_name name =
    let lower = to_ascii_lowercase name in
    has_text probes lower
    || (starts_with lower (codes "albumart") && ends_with_text lower (codes ".jpg"))

-- The units before the first NUL; `String::from_utf16` is an argument.
unfoldable pub until_nul : List ℕ → List ℕ
until_nul [] = []
until_nul (u ∷ units) = let rest = until_nul units in if nat_beq u 0 then [] else u ∷ rest

abbrev pub utf16_to_string : (List ℕ → Option Text) → List ℕ → Option Text
utf16_to_string from_utf16 units = from_utf16 (until_nul units)
