-- ===== src/Storage/Text.antt =====
-- What a text column of the migrations refuses (internal/storage/postgres/migrations).
use go_ledger.Base.{String, Bool, false, ◌||◌, Option, none, some, ◌==◌}
use Prim.Native.Char.{code}
use Prim.Native.String.{[], ◌∷◌}

-- PostgreSQL keeps no U+0000 in a text.
unfoldable pub has_nul : String → Bool
has_nul [] = false
has_nul (c ∷ s) = code c == 0 || has_nul s

-- NULL is taken by the nullable external_ref.
abbrev pub ref_has_nul : Option String → Bool
ref_has_nul none = false
ref_has_nul (some ref) = has_nul ref
