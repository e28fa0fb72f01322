-- ===== src/Projection/Texts.antt =====
-- What the projection uses of strings and of their UTF-8 encoding.
use cloud_swe.Base.{
  ℕ, zero, suc, ◌+◌, ◌-◌, Bool, true, false, List, [], ◌∷◌, ◌==◌, ◌&&◌, leb, ltb, if◌then◌else◌,
  length,
}
use cloud_swe.Store.Schema.{Text}

-- `text.startsWith(prefix)`
unfoldable pub starts_with : Text → Text → Bool
starts_with cs [] = true
starts_with [] (p ∷ ps) = false
starts_with (c ∷ cs) (p ∷ ps) = (c == p) && starts_with cs ps

unfoldable pub drop {ℓ} : {A : Type ℓ} → ℕ → List A → List A
drop zero xs = xs
drop (suc n) [] = []
drop (suc n) (x ∷ xs) = drop n xs

-- `text.slice(-n)`
unfoldable pub last_units : ℕ → Text → Text
unfolding drop
last_units n text = drop (length text - n) text

abbrev pub is_high : ℕ → Bool
is_high c = leb 0xD800 c && leb c 0xDBFF

abbrev pub is_low : ℕ → Bool
is_low c = leb 0xDC00 c && leb c 0xDFFF

-- The bytes of one code unit that is not half of a pair; a lone half becomes U+FFFD.
abbrev pub unit_bytes : ℕ → ℕ
unit_bytes c = if ltb c 0x80 then 1 else if ltb c 0x800 then 2 else 3

-- `new TextEncoder().encode(text).byteLength`: a pair of halves takes four bytes.
unfoldable pub byte_length : Text → ℕ
byte_length [] = 0
byte_length (c ∷ []) = unit_bytes c
byte_length (c ∷ b ∷ cs) =
    let rest = byte_length cs in
    let next = byte_length (b ∷ cs) in
    if is_high c && is_low b then 4 + rest else unit_bytes c + next
