-- ===== src/Supervisor/Library.antt =====
-- Where the preloaded library lies: `library_path`, and the extraction of the embedded copy to a
-- cache directory. A run on the disk gives every state that another process can see.
use pseudoroot.Prelude.{
  ℕ, zero, suc, ◌+◌, ◌-◌, ◌/◌, ◌%◌, Bool, true, false, ◌&&◌, ◌||◌, not, Option, none, some, List,
  [], ◌∷◌, ◌++◌, ltb, ◌==◌, if◌then◌else◌, take,
}
use pseudoroot.Prelude.Bytes.{Bytes, bytes_eq, codes}
use pseudoroot.Prelude.Decimal.{to_string}
use pseudoroot.Supervisor.Process.{Process, var, lib_path_env}

abbrev is_absolute : Bytes → Bool
is_absolute [] = false
is_absolute (c ∷ path) = c == b'/'

abbrev pub ends_in_slash : Bytes → Bool
ends_in_slash [] = false
ends_in_slash (c ∷ []) = c == b'/'
ends_in_slash (c ∷ d ∷ path) = ends_in_slash (d ∷ path)

-- `Path::join`
unfoldable pub join : Bytes → Bytes → Bytes
join [] name = name
join (c ∷ dir) name =
    if is_absolute name
    then name
    else if ends_in_slash (c ∷ dir)
    then (c ∷ dir) ++ name
    else (c ∷ dir) ++ b'/' ∷ name

-- the names between slashes, the first one being read
unfoldable split_slashes : Bytes → Bytes → List Bytes
split_slashes name [] = name ∷ []
split_slashes name (c ∷ path) =
    let next = split_slashes [] path in
    let longer = split_slashes (name ++ c ∷ []) path in if c == b'/' then name ∷ next else longer

-- empty names and dots are no components
unfoldable normal : List Bytes → List Bytes
normal [] = []
normal (name ∷ names) =
    let rest = normal names in
    if bytes_eq name [] || bytes_eq name (codes ".") then rest else name ∷ rest

-- `Path::components`: the root or a leading dot, then the names
unfoldable components : Bytes → List Bytes
unfolding split_slashes normal
components path = elim (split_slashes [] path) [
  | [] ↦ []
  | ◌∷◌ first (names → _) ↦
      if is_absolute path
      then codes "/" ∷ normal names
      else if bytes_eq first (codes ".")
      then first ∷ normal names
      else normal (first ∷ names)
]

unfoldable is_prefix : List Bytes → List Bytes → Bool
is_prefix [] names = true
is_prefix (p ∷ prefix) [] = false
is_prefix (p ∷ prefix) (name ∷ names) = bytes_eq p name && is_prefix prefix names

-- `Path::starts_with`
unfoldable pub starts_with : Bytes → Bytes → Bool
unfolding components is_prefix
starts_with path base = is_prefix (components base) (components path)

-- an environment variable
abbrev xdg_cache_home : Bytes
xdg_cache_home = codes "XDG_CACHE_HOME"

unfoldable pub cache_root : Process → Bytes
unfolding var join
cache_root p =
    let fallback : Bytes = elim (var p (codes "HOME")) [
      | some home ↦ join home (codes ".cache")
      | none ↦ p.temp_dir
    ] in
    elim (var p xdg_cache_home) [
      | some xdg ↦ if bytes_eq xdg [] then fallback else xdg
      | none ↦ fallback
    ]

-- a digit of `{hash:016x}`
abbrev hex_digit : ℕ → ℕ
hex_digit n = if ltb n 10 then b'0' + n else b'a' + (n - 10)

unfoldable hex : ℕ → ℕ → Bytes → Bytes
hex zero n rest = rest
hex (suc k) n rest = hex k (n / 16) (hex_digit (n % 16) ∷ rest)

unfoldable pub lib_name : Process → Bytes
lib_name p = codes (if p.macos then "libpseudoroot_lib.dylib" else "libpseudoroot_lib.so")

-- the directory of the library whose content has the digest `hash`
unfoldable pub embed_dir : Process → ℕ → Bytes
unfolding cache_root join starts_with hex
embed_dir p hash =
    let dir = join (join (cache_root p) (codes "pseudoroot")) (codes "embed") in
    let own =
      if starts_with dir p.temp_dir then join dir (codes "uid-" ++ to_string p.uid) else dir in
    join own (hex 16 hash [])

unfoldable pub tmp_name : Process → Bytes
unfolding lib_name
tmp_name p = b'.' ∷ lib_name p ++ b'.' ∷ to_string p.pid ++ codes ".tmp"

pub data Node : Type 0 where
  directory : Node
  file : Bytes → Node

abbrev pub Disk : Type 0
Disk = Bytes → Option Node

abbrev pub exists : Disk → Bytes → Bool
exists disk path = elim (disk path) [ none ↦ false | some node ↦ true ]

abbrev pub put : Bytes → Option Node → Disk → Disk
put path node disk q = if bytes_eq path q then node else disk q

-- What the calls of one extraction answer, and the embedded library with its digest. `fs::write`
-- opens the file or not, and leaves it at these lengths before it is done or fails.
pub record Extraction : Type 0 where
  pub embedded : Bytes
  pub hash : ℕ
  pub create_dir_all : Bytes → Disk → Disk × Bool
  pub opened : Bool
  pub lengths : List ℕ
  pub write_all : Bool
  pub rename : Bool

-- the states of the disk that a call of `fs::write` goes through, the last one first
unfoldable pub writing : Bytes → Bytes → List ℕ → Disk → List Disk
writing path content [] disk = put path (some (file [])) disk ∷ []
writing path content (n ∷ lengths) disk =
    put path (some (file (take n content))) disk ∷ writing path content lengths disk

-- the states of the disk, the last one first, and the path of the library
unfoldable pub extract_embedded_lib : Process → Extraction → Disk → List Disk × Option Bytes
unfolding join writing
extract_embedded_lib p x disk =
    let dir = embed_dir p x.hash in
    let path = join dir (lib_name p) in
    let tmp_path = join dir (tmp_name p) in
    if exists disk path
    then (disk ∷ [], some path)
    else (let made = x.create_dir_all dir disk in
        if not made.1
        then (made.0 ∷ disk ∷ [], none)
        else if not x.opened
        then (made.0 ∷ disk ∷ [], none)
        else (let partial = writing tmp_path x.embedded x.lengths made.0 in
            let whole = put tmp_path (some (file x.embedded)) made.0 in
            if not x.write_all
            then (partial ++ made.0 ∷ disk ∷ [], none)
            else if not x.rename
            then (whole ∷ partial ++ made.0 ∷ disk ∷ [], none)
            else (
              put tmp_path none (put path (some (file x.embedded)) made.0) ∷ whole ∷ partial
                  ++ made.0 ∷ disk ∷ [],
              some path,
            )))

unfoldable pub library_path : Process → Extraction → Disk → List Disk × Option Bytes
unfolding var extract_embedded_lib
library_path p x disk =
    let extracted = extract_embedded_lib p x disk in
    elim (var p lib_path_env) [
      | some path ↦ if exists disk path then (disk ∷ [], some path) else extracted
      | none ↦ extracted
    ]
