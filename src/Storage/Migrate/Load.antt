-- ===== src/Storage/Migrate/Load.antt =====
-- LoadMigrations of internal/storage/postgres/migrate.go. Names and bodies are strings of bytes. Go
-- ranges over the map of the versions in no fixed order, here from the newest entry: the order
-- decides only which missing .up.sql is reported.
use go_ledger.Base.{
  ℕ, ◌+◌, ◌-◌, ◌*◌, ℤ, pos, neg, ltb_ℤ, eqb_ℤ, fits_int64, Bool, true, false, ◌&&◌, Option, none,
  some, List, [], ◌∷◌, Bytes, bytes_equal, leb, ◌==◌, if◌then◌else◌,
}
use go_ledger.Domain.Errors.{opaque, wrap, Result, ok, err}

-- an entry of the embedded directory, with what ReadFile gives for it
pub record File : Type 0 where
  pub name : Bytes
  pub is_dir : Bool
  pub body : Result Bytes

-- what fs.ReadDir gives
abbrev pub Files : Type 0
Files = Result (List File)

pub record Migration : Type 0 where
  pub version : ℤ
  pub name : Bytes
  pub up : Bytes
  pub down : Bytes
  pub checksum : Bytes

abbrev pub is_empty : Bytes → Bool
is_empty [] = true
is_empty (b ∷ bytes) = false

-- ".sql", ".up" and ".down"
abbrev pub sql_suffix : Bytes
sql_suffix = 46 ∷ 115 ∷ 113 ∷ 108 ∷ []

abbrev pub up_direction : Bytes
up_direction = 46 ∷ 117 ∷ 112 ∷ []

abbrev pub down_direction : Bytes
down_direction = 46 ∷ 100 ∷ 111 ∷ 119 ∷ 110 ∷ []

abbrev cons_option : ℕ → Option Bytes → Option Bytes
cons_option b none = none
cons_option b (some bytes) = some (b ∷ bytes)

-- what is before a suffix: strings.HasSuffix and strings.TrimSuffix
unfoldable pub before_suffix : Bytes → Bytes → Option Bytes
before_suffix suffix [] = if is_empty suffix then some [] else none
before_suffix suffix (b ∷ bytes) =
    let rest = before_suffix suffix bytes in
    if bytes_equal (b ∷ bytes) suffix then some [] else cons_option b rest

-- a name without its extension, and the extension from the last dot (path.Ext)
abbrev extend : ℕ → Bytes → Bytes × Bytes → Bytes × Bytes
extend b bytes (stem, []) = if b == 46 then ([], b ∷ bytes) else (b ∷ stem, [])
extend b bytes (stem, c ∷ ext) = (b ∷ stem, c ∷ ext)

unfoldable pub split_ext : Bytes → Bytes × Bytes
split_ext [] = ([], [])
split_ext (b ∷ bytes) = extend b bytes (split_ext bytes)

abbrev cons_left : ℕ → Option (Bytes × Bytes) → Option (Bytes × Bytes)
cons_left b none = none
cons_left b (some (left, right)) = some (b ∷ left, right)

-- what is before and after the first "_"
unfoldable pub cut : Bytes → Option (Bytes × Bytes)
cut [] = none
cut (b ∷ bytes) = let rest = cut bytes in if b == 95 then some ([], bytes) else cons_left b rest

-- strconv.ParseInt(s, 10, 64)
unfoldable pub parse_digits : ℕ → Bytes → Option ℕ
parse_digits n [] = some n
parse_digits n (b ∷ bytes) =
    let rest = parse_digits (10 * n + (b - 48)) bytes in if leb 48 b && leb b 57 then rest else none

abbrev parse_nat : Bytes → Option ℕ
parse_nat [] = none
parse_nat (b ∷ bytes) = parse_digits 0 (b ∷ bytes)

abbrev in_range : Option ℤ → Option ℤ
in_range none = none
in_range (some v) = if fits_int64 v then some v else none

abbrev signed : (ℕ → ℤ) → Option ℕ → Option ℤ
signed sign none = none
signed sign (some n) = some (sign n)

unfoldable pub parse_int : Bytes → Option ℤ
unfolding parse_digits
parse_int [] = none
parse_int (b ∷ bytes) = in_range (
    if b == 45
    then signed (λ n. neg (pos n)) (parse_nat bytes)
    else if b == 43
    then signed pos (parse_nat bytes)
    else signed pos (parse_nat (b ∷ bytes)))

abbrev read_version : Bytes → Result ℤ
read_version text = elim (parse_int text) [
  | some v ↦ ok v
  | none ↦ err (wrap "migration: bad version" (opaque "strconv.ParseInt"))
]

-- the version and the name in a stem NNNN_name
abbrev version_and_name : Option (Bytes × Bytes) → Result (ℤ × Bytes)
version_and_name none = err (opaque "migration: expected NNNN_name.(up|down).sql")
version_and_name (some ([], name)) = err (opaque "migration: expected NNNN_name.(up|down).sql")
version_and_name (some (b ∷ digits, name)) = elim (read_version (b ∷ digits)) [
  | ok v ↦ ok (v, name)
  | err e ↦ err e
]

-- the body of the direction that the extension names
abbrev pub with_body : Bytes → Bytes → Migration → Result Migration
with_body direction body m =
    if bytes_equal direction up_direction
    then ok (record m { up = body })
    else if bytes_equal direction down_direction
    then ok (record m { down = body })
    else err (opaque "migration: expected .up.sql or .down.sql")

abbrev pub new_migration : ℤ → Bytes → Migration
new_migration version name = record {
  version = version;
  name = name;
  up = [];
  down = [];
  checksum = [];
}

abbrev pub cons_result : Migration → Result (List Migration) → Result (List Migration)
cons_result m (ok ms) = ok (m ∷ ms)
cons_result m (err e) = err e

abbrev pub before_all : Result Migration → List Migration → Result (List Migration)
before_all (ok m) ms = ok (m ∷ ms)
before_all (err e) ms = err e

-- byVersion after a file of a version, which may be new
unfoldable pub add_file : ℤ → Bytes → Bytes → Bytes → List Migration → Result (List Migration)
add_file version name direction body [] =
    before_all (with_body direction body (new_migration version name)) []
add_file version name direction body (m ∷ ms) =
    let rest = add_file version name direction body ms in
    if eqb_ℤ m.version version
    then before_all (with_body direction body m) ms
    else cons_result m rest

abbrev pub with_file :
    Bytes → Result Bytes → List Migration → Result (ℤ × Bytes) → Result (List Migration)
with_file direction body ms (err e) = err e
with_file direction (err e) ms (ok (version, name)) = err (wrap "read migration" e)
with_file direction (ok body) ms (ok (version, name)) = add_file version name direction body ms

abbrev pub load_sql : Bytes × Bytes → Result Bytes → List Migration → Result (List Migration)
load_sql (stem, direction) body ms = with_file direction body ms (version_and_name (cut stem))

-- the body of the loop over the directory
abbrev pub load_named :
    Bool → Option Bytes → Result Bytes → List Migration → Result (List Migration)
load_named true base body ms = ok ms
load_named false none body ms = ok ms
load_named false (some base) body ms = load_sql (split_ext base) body ms

abbrev pub load_file : File → List Migration → Result (List Migration)
load_file f ms = load_named f.is_dir (before_suffix sql_suffix f.name) f.body ms

abbrev pub next_file :
    Result (List Migration) → (List Migration → Result (List Migration)) → Result (List Migration)
next_file (err e) rest = err e
next_file (ok ms) rest = rest ms

unfoldable pub load_files : List File → List Migration → Result (List Migration)
unfolding before_suffix split_ext cut parse_int add_file
load_files [] ms = ok ms
load_files (f ∷ files) ms = next_file (load_file f ms) (load_files files)

-- the insertion that sorts the versions, which are distinct
unfoldable pub insert_by_version : Migration → List Migration → List Migration
insert_by_version m [] = m ∷ []
insert_by_version m (x ∷ xs) =
    let rest = insert_by_version m xs in if ltb_ℤ m.version x.version then m ∷ x ∷ xs else x ∷ rest

-- `hex_sha256` is hex.EncodeToString of sha256.Sum256.
module _ (hex_sha256 : Bytes → Bytes) where
  abbrev pub completed : Bool → Migration → Result (List Migration) → Result (List Migration)
  completed true m rest = err (opaque "migration: missing .up.sql")
  completed false m (err e) = err e
  completed false m (ok ms) = ok (insert_by_version (record m { checksum = hex_sha256 m.up }) ms)

  -- the loop over byVersion, and the sort
  unfoldable pub complete_all : List Migration → Result (List Migration)
  unfolding insert_by_version
  complete_all [] = ok []
  complete_all (m ∷ ms) = completed (is_empty m.up) m (complete_all ms)

  abbrev pub load_read : Files → Result (List Migration)
  load_read (err e) = err (wrap "read migrations dir" e)
  load_read (ok files) = next_file (load_files files []) complete_all

  -- LoadMigrations
  unfoldable pub load_migrations : Files → Result (List Migration)
  unfolding load_files complete_all
  load_migrations files = load_read files
