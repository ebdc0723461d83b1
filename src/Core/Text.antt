-- ===== src/Core/Text.antt =====
-- What the crates use of Rust's `str`: code points, blank texts, and the search for a piece.
use Prim.Native.Char.{code}
use Prim.Native.String as S
use openwork.Common.{
  ℕ, ◌+◌, String, Bool, true, false, ◌&&◌, ◌||◌, List, [], ◌∷◌, leb, ◌==◌, if◌then◌else◌,
}

unfoldable pub codes : String → List ℕ
codes S.[] = []
codes (S.◌∷◌ c s) = code c ∷ codes s

-- Rust's `char::is_whitespace`, the White_Space property of Unicode
unfoldable pub is_whitespace : ℕ → Bool
is_whitespace c =
    (leb 9 c && leb c 13)
    || c == 32
    || c == 0x85
    || c == 0xa0
    || c == 0x1680
    || (leb 0x2000 c && leb c 0x200a)
    || c == 0x2028
    || c == 0x2029
    || c == 0x202f
    || c == 0x205f
    || c == 0x3000

unfoldable pub all_whitespace : List ℕ → Bool
unfolding is_whitespace
all_whitespace [] = true
all_whitespace (c ∷ cs) = is_whitespace c && all_whitespace cs

-- `text.trim().is_empty()`
unfoldable pub is_blank : String → Bool
unfolding codes all_whitespace
is_blank s = all_whitespace (codes s)

abbrev pub is_digit : ℕ → Bool
is_digit c = leb b'0' c && leb c b'9'

abbrev pub is_lower : ℕ → Bool
is_lower c = leb b'a' c && leb c b'z'

abbrev pub is_upper : ℕ → Bool
is_upper c = leb b'A' c && leb c b'Z'

abbrev pub to_lower : ℕ → ℕ
to_lower c = if is_upper c then c + 32 else c

unfoldable pub starts_with : List ℕ → List ℕ → Bool
starts_with cs [] = true
starts_with [] (p ∷ ps) = false
starts_with (c ∷ cs) (p ∷ ps) = c == p && starts_with cs ps

unfoldable pub contains : List ℕ → List ℕ → Bool
unfolding starts_with
contains [] piece = starts_with [] piece
contains (c ∷ cs) piece = starts_with (c ∷ cs) piece || contains cs piece

unfoldable pub ends_with : List ℕ → List ℕ → Bool
unfolding starts_with
ends_with [] end = starts_with [] end
ends_with (c ∷ cs) end = (starts_with (c ∷ cs) end && starts_with end (c ∷ cs)) || ends_with cs end
