-- ===== src/Text/Trim.antt =====
-- `str::trim`, `str::lines` and `str::replace` on UTF-8 bytes.
use bancuh_dns.Prelude.{
  ℕ, Bool, true, false, ◌&&◌, ◌||◌, List, [], ◌∷◌, ◌++◌, ◌==◌, leb, if◌then◌else◌,
}
use bancuh_dns.Text.{Text, is_empty}

-- The white space of Unicode: characters of one, of two and of three bytes.
abbrev space1 : ℕ → Bool
space1 x = (leb 9 x && leb x 13) || x == 32

abbrev space2 : ℕ → ℕ → Bool
space2 x y = x == 194 && (y == 133 || y == 160)

abbrev space3 : ℕ → ℕ → ℕ → Bool
space3 x y z =
    (x == 225 && (y == 154 && z == 128))
    || (x == 226
        && ((y == 128 && ((leb 128 z && leb z 138) || (z == 168 || (z == 169 || z == 175))))
            || (y == 129 && z == 159)))
    || (x == 227 && (y == 128 && z == 128))

-- `s.trim_start()`
unfoldable pub trim_start : Text → Text
trim_start [] = []
trim_start (x ∷ []) = if space1 x then [] else x ∷ []
trim_start (x ∷ y ∷ []) = elim (space1 x) [
  | true ↦ trim_start (y ∷ [])
  | false ↦ if space2 x y then [] else x ∷ y ∷ []
]
trim_start (x ∷ y ∷ z ∷ s) = elim (space1 x) [
  | true ↦ trim_start (y ∷ z ∷ s)
  | false ↦ elim (space2 x y) [
    | true ↦ trim_start (z ∷ s)
    | false ↦ elim (space3 x y z) [ true ↦ trim_start s | false ↦ x ∷ y ∷ z ∷ s ]
  ]
]

-- `s.trim_end()`: up to the first position from which all is white space.
unfoldable pub trim_end : Text → Text
unfolding trim_start
trim_end [] = []
trim_end (x ∷ s) = let rest = trim_end s in if is_empty (trim_start (x ∷ s)) then [] else x ∷ rest

-- `s.trim()`
unfoldable pub trim : Text → Text
unfolding trim_end
trim s = trim_end (trim_start s)

-- A line without the carriage return that ends it.
unfoldable pub without_cr : Text → Text
without_cr [] = []
without_cr (x ∷ []) = if x == 13 then [] else x ∷ []
without_cr (x ∷ y ∷ s) = x ∷ without_cr (y ∷ s)

-- The lines of a text of which the start of the first is already read.
unfoldable pub lines_from : Text → Text → List Text
unfolding without_cr
lines_from [] [] = []
lines_from (x ∷ line) [] = (x ∷ line) ∷ []
lines_from line (c ∷ s) = elim (c == 10) [
  | true ↦ without_cr line ∷ lines_from [] s
  | false ↦ lines_from (line ++ c ∷ []) s
]

-- `s.lines()`
unfoldable pub lines : Text → List Text
unfolding lines_from
lines s = lines_from [] s

-- `s.replace("*.", "")`
unfoldable pub remove_stars : Text → Text
remove_stars [] = []
remove_stars (x ∷ []) = x ∷ []
remove_stars (x ∷ y ∷ s) = elim (x == 42 && y == 46) [
  | true ↦ remove_stars s
  | false ↦ x ∷ remove_stars (y ∷ s)
]
