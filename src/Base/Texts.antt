-- ===== src/Base/Texts.antt =====
-- Text operations of Python: `str(n)` of an int, slices, `strip`, `lower`, `endswith`.
use Prim.Native.Nat.{ℕ, zero, suc, ◌+◌, ◌/◌, ◌%◌}
use Prim.Native.Char.{Char, code}
use Prim.Native.String.{String, [], ◌∷◌, ◌++◌}
use mathlib.Core.Bool.{Bool, true, false, ◌&&◌, ◌||◌}
use tikblog_unsubscribe_plat.Base.Tests.{leb, ltb, ◌==◌, if◌then◌else◌}

unfoldable pub digit : ℕ → String
digit zero = "0"
digit (suc zero) = "1"
digit (suc (suc zero)) = "2"
digit (suc (suc (suc zero))) = "3"
digit (suc (suc (suc (suc zero)))) = "4"
digit (suc (suc (suc (suc (suc zero))))) = "5"
digit (suc (suc (suc (suc (suc (suc zero)))))) = "6"
digit (suc (suc (suc (suc (suc (suc (suc zero))))))) = "7"
digit (suc (suc (suc (suc (suc (suc (suc (suc zero)))))))) = "8"
digit _ = "9"

-- Each round takes a digit off, so `n + 1` rounds are enough for `n`.
digits_from : ℕ → ℕ → String → String
digits_from zero n acc = acc
digits_from (suc fuel) n acc =
    let rest = digits_from fuel (n / 10) (digit (n % 10) ++ acc) in
    if ltb n 10 then digit n ++ acc else rest

-- `str(n)`
unfoldable pub decimal : ℕ → String
unfolding digits_from digit
decimal n = digits_from (n + 1) n ""

-- `len(s)`
abbrev pub text_length : String → ℕ
text_length [] = 0
text_length (c ∷ s) = suc (text_length s)

-- `s[:n]`
unfoldable pub take_chars : ℕ → String → String
take_chars zero s = ""
take_chars (suc n) [] = ""
take_chars (suc n) (c ∷ s) = c ∷ take_chars n s

-- `str.isspace` of one character
unfoldable pub is_space : Char → Bool
is_space c =
    let n = code c in
    leb 9 n && leb n 13
    || leb 28 n && leb n 32
    || n == 133
    || n == 160
    || n == 5760
    || leb 8192 n && leb n 8202
    || n == 8232
    || n == 8233
    || n == 8239
    || n == 8287
    || n == 12288

-- `s.lstrip(…)` of the characters that pass a test
unfoldable pub strip_left : (Char → Bool) → String → String
strip_left p [] = []
strip_left p (c ∷ s) = if p c then strip_left p s else c ∷ s

-- `s.rstrip(…)`: a character goes if it passes the test and nothing is left behind it.
keep_before : Bool → Char → String → String
keep_before true c [] = []
keep_before false c [] = c ∷ []
keep_before _ c (d ∷ s) = c ∷ d ∷ s

unfoldable pub strip_right : (Char → Bool) → String → String
unfolding keep_before
strip_right p [] = []
strip_right p (c ∷ s) = keep_before (p c) c (strip_right p s)

unfoldable pub strip_chars : (Char → Bool) → String → String
unfolding strip_left strip_right
strip_chars p s = strip_right p (strip_left p s)
