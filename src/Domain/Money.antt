-- ===== src/Domain/Money.antt =====
-- internal/ledger/money.go
use go_ledger.Base.{ℤ, pos, ltb_ℤ, String, Bool, true, false, not, ◌||◌, ltb, ◌==◌, if◌then◌else◌}
use Prim.Native.Char.{Char, code}
use Prim.Native.String.{len, [], ◌∷◌}
use text.Mathlib.Text.{◌==◌ as str_eq}

pub record Money : Type 0 where
  pub amount : ℤ
  pub currency : String

unfoldable pub is_positive : Money → Bool
is_positive m = ltb_ℤ (pos 0) m.amount

unfoldable pub same_currency : Money → Money → Bool
same_currency m other = str_eq m.currency other.currency

-- r < 'A' || r > 'Z'
abbrev outside_letters : Char → Bool
outside_letters r = ltb (code r) b'A' || ltb b'Z' (code r)

-- the loop over the runes
unfoldable pub all_letters : String → Bool
all_letters [] = true
all_letters (r ∷ s) = if outside_letters r then false else all_letters s

unfoldable pub valid_currency : String → Bool
unfolding all_letters
valid_currency s = if not (len s == 3) then false else all_letters s
