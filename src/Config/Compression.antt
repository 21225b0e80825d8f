-- ===== src/Config/Compression.antt =====
-- The compression names of config.py: a plain codec, or `codec(level)`. Levels are ASCII digits.
use parqdb.Prelude.{
  ℕ, String, Bool, true, false, ◌&&◌, ◌||◌, List, [], ◌∷◌, Option, some, none, leb, ◌≡◌, refl,
}
use parqdb.Python.Int.{ℤ, pos}
use parqdb.Text.Chars.{member, format, strip_prefix, strip_last}
use parqdb.Text.Decimal.{to_int, is_digits}

abbrev pub simple_codecs : List String
simple_codecs = "uncompressed" ∷ "snappy" ∷ "lz4" ∷ "lz4_raw" ∷ []

abbrev pub codec_levels : List (String × ℕ × ℕ)
codec_levels = ("gzip", 0, 9) ∷ ("brotli", 0, 11) ∷ ("zstd", 1, 22) ∷ []

abbrev within : ℕ → ℕ → Option ℤ → Bool
within lo hi (some (pos n)) = leb lo n && leb n hi
within lo hi _ = false

-- level.isdigit() and minimum <= int(level) <= maximum
unfoldable pub is_level : ℕ → ℕ → String → Bool
is_level lo hi level = is_digits level && within lo hi (to_int level)

-- The part between `codec(` and the `)` at the end.
unfoldable pub level_of : String → String → Option String
level_of codec compression = elim (strip_prefix (format (codec ∷ "(" ∷ [])) compression) [
  | none ↦ none
  | some rest ↦ strip_last ")" rest
]

-- The loop: the first codec whose form fits decides.
unfoldable pub levelled_codec : List (String × ℕ × ℕ) → String → Bool
unfolding level_of is_level
levelled_codec [] compression = false
levelled_codec ((codec, lo, hi) ∷ more) compression = elim (level_of codec compression) [
  | none ↦ levelled_codec more compression
  | some level ↦ is_level lo hi level
]

unfoldable pub is_supported : String → Bool
unfolding levelled_codec
is_supported compression =
    member compression simple_codecs || levelled_codec codec_levels compression

compression_samples :
    (is_supported "zstd(22)" ≡ true)
    × (is_supported "zstd(0)" ≡ false)
    × (is_supported "gzip()" ≡ false)
    × (is_supported "lz4" ≡ true)
    × (is_supported "zstd" ≡ false)
    × (is_supported "brotli(+3)" ≡ false)
unfolding is_supported format strip_prefix strip_last to_int is_digits
compression_samples = (refl, refl, refl, refl, refl, refl)
