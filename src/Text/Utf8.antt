-- ===== src/Text/Utf8.antt =====
-- Which byte sequences are UTF-8: the table of the Unicode standard that `String::from_utf8` checks,
-- as an automaton over the bytes.
use bancuh_dns.Prelude.{
  ℕ, ◌≡◌, refl, Bool, true, false, ◌&&◌, List, [], ◌∷◌, ◌++◌, leb, ltb, ◌==◌, if◌then◌else◌, Result,
  ok, err, All, ◌<◌, ltb_of_lt,
}

-- What is expected next: a character, or so many continuation bytes, the next one within limits.
pub data Expect : Type 0 where
  start one two three after_e0 after_ed after_f0 after_f4 bad : Expect

abbrev within : ℕ → ℕ → ℕ → Bool
within lo hi b = leb lo b && leb b hi

first_byte : ℕ → Expect
first_byte b =
    if ltb b 0x80
    then start
    else if within 0xc2 0xdf b
    then one
    else if b == 0xe0
    then after_e0
    else if b == 0xed
    then after_ed
    else if within 0xe1 0xef b
    then two
    else if b == 0xf0
    then after_f0
    else if within 0xf1 0xf3 b
    then three
    else if b == 0xf4
    then after_f4
    else bad

advance : Expect → ℕ → Expect
unfolding first_byte
advance start b = first_byte b
advance one b = if within 0x80 0xbf b then start else bad
advance two b = if within 0x80 0xbf b then one else bad
advance three b = if within 0x80 0xbf b then two else bad
advance after_e0 b = if within 0xa0 0xbf b then one else bad
advance after_ed b = if within 0x80 0x9f b then one else bad
advance after_f0 b = if within 0x90 0xbf b then two else bad
advance after_f4 b = if within 0x80 0x8f b then two else bad
advance bad b = bad

scan : Expect → List ℕ → Expect
scan e [] = e
scan e (b ∷ s) = scan (advance e b) s

is_start : Expect → Bool
is_start start = true
is_start _ = false

unfoldable pub is_utf8 : List ℕ → Bool
unfolding scan advance is_start
is_utf8 s = is_start (scan start s)

-- What every Rust string satisfies.
abbrev pub IsUtf8 : List ℕ → Type 0
IsUtf8 s = is_utf8 s ≡ true

-- `String::from_utf8`; its error carries the bytes back.
unfoldable pub from_utf8 : List ℕ → Result (List ℕ) (List ℕ)
unfolding is_utf8
from_utf8 s = if is_utf8 s then ok s else err s

scan-append : (e : Expect) (s t : List ℕ) → scan e (s ++ t) ≡ scan (scan e s) t
unfolding scan
scan-append e [] t = refl
scan-append e (b ∷ s) t = scan-append (advance e b) s t

start_of_is_start : (e : Expect) → is_start e ≡ true → e ≡ start
unfolding is_start
start_of_is_start start h = refl
start_of_is_start _ h = cc

-- Rust strings are closed under concatenation.
pub IsUtf8-append : (s t : List ℕ) → IsUtf8 s → IsUtf8 t → IsUtf8 (s ++ t)
unfolding is_utf8
IsUtf8-append s t hs ht = rw scan-append (rw (start_of_is_start (scan start s) hs) ht)

scan_ascii : (s : List ℕ) → All (λ b. b < 0x80) s → scan start s ≡ start
unfolding scan advance first_byte
scan_ascii [] h = refl
scan_ascii (b ∷ s) h = rw (ltb_of_lt b 0x80 h.0) (scan_ascii s h.1)

-- ASCII text is UTF-8.
pub IsUtf8-ascii : (s : List ℕ) → All (λ b. b < 0x80) s → IsUtf8 s
unfolding is_utf8
IsUtf8-ascii s h = rw (scan_ascii s h)

pub from_utf8_of_IsUtf8 : (s : List ℕ) → IsUtf8 s → from_utf8 s ≡ ok s
unfolding from_utf8
from_utf8_of_IsUtf8 s h = rw h
