-- ===== src/Base/Samples.antt =====
-- Runs of the text functions.
use tikblog_unsubscribe_plat.Base.{◌≡◌, refl}
use tikblog_unsubscribe_plat.Base.Texts.{decimal, take_chars, is_space, strip_chars}

decimal-zero : decimal 0 ≡ "0"
unfolding decimal
decimal-zero = refl

decimal_runs : decimal 40429 ≡ "40429"
unfolding decimal
decimal_runs = refl

take_chars_runs : take_chars 3 "abcd" ≡ "abc"
unfolding take_chars
take_chars_runs = refl

strip_runs : strip_chars is_space "  a b  " ≡ "a b"
unfolding strip_chars is_space
strip_runs = refl
