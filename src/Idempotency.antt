-- ===== src/Idempotency.antt =====
-- internal/idempotency/idempotency.go: the Idempotency-Key header and the request's fingerprint.
-- SHA-256 and the JSON decoder and encoder are parameters.
use go_ledger.Base.{
  ℕ, ◌≡◌, ◌≢◌, refl, Bool, ◌||◌, [], ◌∷◌, ◌++◌, length, All, Bytes, ltb, ◌==◌, ◌≤◌, ◌<◌,
  if◌then◌else◌, Bool-cases, inl, inr, arith, ◌↔◌,
}
use go_ledger.Domain.Errors.{
  sentinel, wrap, annotate, text, key_required, key_invalid, Result, ok, err,
}

abbrev pub max_key_length : ℕ
max_key_length = 255

-- key[i] < 0x20 || key[i] > 0x7E
abbrev pub unprintable : ℕ → Bool
unprintable b = ltb b 0x20 || ltb 0x7E b

-- the loop over the bytes
unfoldable pub check_bytes : Bytes → Result (Unit {0})
check_bytes [] = ok tt
check_bytes (b ∷ key) =
    if unprintable b
    then err (annotate (sentinel key_invalid) (text "contains a non-printable byte"))
    else check_bytes key

unfoldable pub validate_key : Bytes → Result (Unit {0})
unfolding check_bytes
validate_key key =
    if length key == 0
    then err (sentinel key_required)
    else if ltb max_key_length (length key)
    then err (annotate (sentinel key_invalid) (text "longer than 255 bytes"))
    else check_bytes key

-- what a key may hold
abbrev pub IsPrintable : ℕ → Type 0
IsPrintable b = (0x20 ≤ b) × (b ≤ 0x7E)

check_bytes-ok : (key : Bytes) → check_bytes key ≡ ok tt → All IsPrintable key
unfolding check_bytes
check_bytes-ok [] passed = tt
check_bytes-ok (b ∷ key) passed = elim (Bool-cases (unprintable b)) [
  | inl bad ↦ absurd (ground arith)
  | inr good ↦ (ground arith, check_bytes-ok key (rw good at passed))
]

check_bytes_complete : (key : Bytes) → All IsPrintable key → check_bytes key ≡ ok tt
unfolding check_bytes
check_bytes_complete [] printable = refl
check_bytes_complete (b ∷ key) (here, there) = ground (arith, check_bytes_complete key there)

-- A key is accepted just if it has between 1 and 255 bytes and each is printable ASCII.
pub validate_key-accepts :
    (key : Bytes)
    → (validate_key key ≡ ok tt)
      ↔ ((0 < length key) × (length key ≤ max_key_length) × All IsPrintable key)
unfolding validate_key
validate_key-accepts key = (
  λ passed. (ground arith, ground arith, check_bytes-ok key (ground arith)),
  λ (some_bytes, few, printable). ground (arith, check_bytes_complete key printable),
)

-- what is written to the hash
abbrev pub hash_input : Bytes → Bytes → Bytes → Bytes
hash_input method path canonical = method ++ 10 ∷ (path ++ 10 ∷ canonical)

module _ {Json : Type 0} (decode : Bytes → Result Json) (encode : Json → Result Bytes)
    (sha256 : Bytes → Bytes) where
  abbrev canonical_of : Result Bytes → Result Bytes
  canonical_of (ok canonical) = ok canonical
  canonical_of (err e) = err (wrap "canonicalise request body" e)

  abbrev encoded : Result Json → Result Bytes
  encoded (ok v) = encode v
  encoded (err e) = err e

  unfoldable pub canonical_json : Bytes → Result Bytes
  canonical_json [] = ok []
  canonical_json (b ∷ body) = canonical_of (encoded (decode (b ∷ body)))

  abbrev hashed : Bytes → Bytes → Result Bytes → Result Bytes
  hashed method path (ok canonical) = ok (sha256 (hash_input method path canonical))
  hashed method path (err e) = err e

  unfoldable pub fingerprint : Bytes → Bytes → Bytes → Result Bytes
  unfolding canonical_json
  fingerprint method path body = hashed method path (canonical_json body)

abbrev pub IsOneLine : Bytes → Type 0
IsOneLine = All (λ (b : ℕ). b ≢ 10)

line_injective :
    (a b c d : Bytes) → IsOneLine a → IsOneLine b → a ++ 10 ∷ c ≡ b ++ 10 ∷ d → (a ≡ b) × (c ≡ d)
line_injective [] [] c d one one' same = (refl, ground arith)
line_injective [] (y ∷ b) c d one (first, rest) same = absurd (ground arith)
line_injective (x ∷ a) [] c d (first, rest) one same = absurd (ground arith)
line_injective (x ∷ a) (y ∷ b) c d (_, one) (_, one') same =
    let (same_line, same_rest) = line_injective a b c d one one' (ground arith) in
    (ground (arith, same_line), same_rest)

-- What is hashed determines the request: if methods and paths have no newline, then requests with
-- the same input of the hash have the same method, path and canonical body.
pub hash_input-injective :
    (method path canonical method' path' canonical' : Bytes)
    → IsOneLine method
    → IsOneLine method'
    → IsOneLine path
    → IsOneLine path'
    → hash_input method path canonical ≡ hash_input method' path' canonical'
    → (method ≡ method') × (path ≡ path') × (canonical ≡ canonical')
hash_input-injective method path canonical method' path' canonical' m m' p p' same =
    let (same_method, same_rest) =
      line_injective method method' (path ++ 10 ∷ canonical) (path' ++ 10 ∷ canonical') m m' same in
    let (same_path, same_body) = line_injective path path' canonical canonical' p p' same_rest in
    (same_method, same_path, same_body)
