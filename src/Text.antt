-- ===== src/Text.antt =====
-- Go strings as lists of bytes, with the functions of package strings that the exporter calls.
pub mod Numbers
pub mod Laws
pub mod Split
pub mod Trim
use Prim.Native.Char.{code}
use braiins_pool_exporter.Base.{
  ℕ, zero, suc, ◌+◌, ◌-◌, String, Bool, true, false, not, ◌&&◌, ◌||◌, List, [], ◌∷◌, ◌++◌, map,
  reverse, Option, none, some, ltb, leb, eqb, if◌then◌else◌,
}

abbrev pub Text : Type 0
Text = List ℕ

-- The bytes of an ASCII literal.
abbrev pub codes : String → Text
codes String.[] = []
codes (String.◌∷◌ c s) = code c ∷ codes s

infix 50 ◌==◌
unfoldable pub ◌==◌ : Text → Text → Bool
[] == [] = true
[] == (b ∷ t) = false
(a ∷ s) == [] = false
(a ∷ s) == (b ∷ t) = eqb a b && s == t

-- `seen[key]` for a set of strings.
unfoldable pub contains : List Text → Text → Bool
unfolding ◌==◌
contains [] key = false
contains (k ∷ ks) key = key == k || contains ks key

-- `strings.HasPrefix`
unfoldable pub has_prefix : Text → Text → Bool
has_prefix s [] = true
has_prefix [] (b ∷ p) = false
has_prefix (a ∷ s) (b ∷ p) = eqb a b && has_prefix s p

-- The white space of `unicode.IsSpace`, by the length of its UTF-8 encoding.
abbrev is_space1 : ℕ → Bool
is_space1 a = leb 9 a && leb a 13 || eqb a 32

abbrev is_space2 : ℕ → ℕ → Bool
is_space2 a b = eqb a 0xc2 && (eqb b 0x85 || eqb b 0xa0)

abbrev is_space3 : ℕ → ℕ → ℕ → Bool
is_space3 a b c =
    eqb a 0xe1 && eqb b 0x9a && eqb c 0x80
    || eqb a 0xe2
      && eqb b 0x80
      && (leb 0x80 c && leb c 0x8a || eqb c 0xa8 || eqb c 0xa9 || eqb c 0xaf)
    || eqb a 0xe2 && eqb b 0x81 && eqb c 0x9f
    || eqb a 0xe3 && eqb b 0x80 && eqb c 0x80

abbrev space_length : Bool → Bool → Bool → ℕ
space_length one two three = if one then 1 else if two then 2 else if three then 3 else 0

-- How many bytes the white space takes that a text begins with: 0 if it begins with none.
unfoldable pub first_space : Text → ℕ
first_space [] = 0
first_space (a ∷ []) = space_length (is_space1 a) false false
first_space (a ∷ b ∷ []) = space_length (is_space1 a) (is_space2 a b) false
first_space (a ∷ b ∷ c ∷ s) = space_length (is_space1 a) (is_space2 a b) (is_space3 a b c)

-- The same at the end of a text that is given from its last byte.
unfoldable pub last_space : Text → ℕ
last_space [] = 0
last_space (a ∷ []) = space_length (is_space1 a) false false
last_space (b ∷ a ∷ []) = space_length (is_space1 b) (is_space2 a b) false
last_space (c ∷ b ∷ a ∷ s) = space_length (is_space1 c) (is_space2 b c) (is_space3 a b c)

-- Drops white space, where `skip` bytes of one are still to go.
unfoldable pub drop_space : (Text → ℕ) → ℕ → Text → Text
drop_space width skip [] = []
drop_space width (suc skip) (a ∷ s) = drop_space width skip s
drop_space width zero (a ∷ s) =
    let rest = drop_space width (width (a ∷ s) - 1) s in
    if eqb (width (a ∷ s)) 0 then a ∷ s else rest

-- `strings.TrimSpace`
unfoldable pub trim_space : Text → Text
unfolding drop_space first_space last_space
trim_space s = reverse (drop_space last_space 0 (reverse (drop_space first_space 0 s)))

-- `strings.TrimLeft`, `strings.TrimRight` and `strings.Trim` with the ASCII bytes that pass `cut`.
unfoldable pub trim_left : (ℕ → Bool) → Text → Text
trim_left cut [] = []
trim_left cut (a ∷ s) = if cut a then trim_left cut s else a ∷ s

unfoldable pub trim_right : (ℕ → Bool) → Text → Text
unfolding trim_left
trim_right cut s = reverse (trim_left cut (reverse s))

unfoldable pub trim : (ℕ → Bool) → Text → Text
unfolding trim_right
trim cut s = trim_right cut (trim_left cut s)

-- The index of the first byte that passes `test`: `strings.IndexByte` and `strings.IndexAny`.
unfoldable pub index_by : (ℕ → Bool) → Text → Option ℕ
index_by test [] = none
index_by test (a ∷ s) =
    if test a then some 0 else elim (index_by test s) [ none ↦ none | some i ↦ some (suc i) ]

unfoldable pub is_ascii : Text → Bool
is_ascii [] = true
is_ascii (a ∷ s) = ltb a 128 && is_ascii s

unfoldable pub lower_byte : ℕ → ℕ
lower_byte c = if leb b'A' c && leb c b'Z' then c + 32 else c

-- `strings.ToLower`: `fold` is `strings.Map(unicode.ToLower, s)`, which serves a text that is not
-- all ASCII.
unfoldable pub to_lower : (Text → Text) → Text → Text
unfolding is_ascii lower_byte
to_lower fold s = if is_ascii s then map lower_byte s else fold s

-- `strings.Join`
unfoldable pub join : List Text → Text → Text
join [] sep = []
join (p ∷ []) sep = p
join (p ∷ q ∷ ps) sep = p ++ sep ++ join (q ∷ ps) sep

-- A Go map with texts for keys.
abbrev pub Map {ℓ} : Type ℓ → Type ℓ
Map V = List (Text × V)

unfoldable pub lookup {ℓ} : {V : Type ℓ} → Map V → Text → Option V
unfolding ◌==◌
lookup [] key = none
lookup ((k, v) ∷ m) key = if key == k then some v else lookup m key
