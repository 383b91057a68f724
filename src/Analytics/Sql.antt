-- ===== src/Analytics/Sql.antt =====
-- The part of SQL that the column expressions of analytics/ are written with: three-valued logic,
-- null-safe equality and trimming.
use Prim.Native.Char.{code}
use tikblog_unsubscribe_plat.Base.{
  ℕ, String, Bool, true, false, not, Option, none, some, List, ◌≡◌, ◌↔◌, refl, arith,
}
use tikblog_unsubscribe_plat.Base.Tests.{str_eq, str_eq_iff, str_eq_refl, leb, ◌==◌}
use tikblog_unsubscribe_plat.Base.Lists.{elem}
use tikblog_unsubscribe_plat.Base.Texts.{strip_chars}

-- A condition: true, false or NULL.
abbrev pub Truth : Type 0
Truth = Option Bool

abbrev pub sql_and : Truth → Truth → Truth
sql_and (some true) q = q
sql_and (some false) q = some false
sql_and none (some false) = some false
sql_and none (some true) = none
sql_and none none = none

-- `coalesce(p, false)`
abbrev pub is_true : Truth → Bool
is_true none = false
is_true (some b) = b

abbrev pub is_not_null {ℓ} : {A : Type ℓ} → Option A → Bool
is_not_null none = false
is_not_null (some a) = true

-- `trim(c)`: spaces only.
unfoldable pub trim : String → String
trim s = strip_chars (λ c. code c == 32) s

-- `trim(c) != ""`
unfoldable pub not_blank : Option String → Truth
unfolding trim
not_blank none = none
not_blank (some s) = some (not (str_eq (trim s) ""))

-- `c IN (…)`
unfoldable pub is_in : List String → Option String → Truth
is_in xs none = none
is_in xs (some s) = some (elem s xs)

-- `a <= b`
unfoldable pub at_most : Option ℕ → ℕ → Truth
at_most none b = none
at_most (some a) b = some (leb a b)

-- `a = b`
abbrev pub equals : Option String → Option String → Truth
equals none b = none
equals (some a) none = none
equals (some a) (some b) = some (str_eq a b)

abbrev pub equal_numbers : Option ℕ → Option ℕ → Truth
equal_numbers none b = none
equal_numbers (some a) none = none
equal_numbers (some a) (some b) = some (a == b)

-- `a <=> b`
abbrev pub same_text : Option String → Option String → Bool
same_text none none = true
same_text none (some b) = false
same_text (some a) none = false
same_text (some a) (some b) = str_eq a b

abbrev pub same_number : Option ℕ → Option ℕ → Bool
same_number none none = true
same_number none (some b) = false
same_number (some a) none = false
same_number (some a) (some b) = a == b

pub same_text_refl : (a : Option String) → same_text a a ≡ true
same_text_refl none = refl
same_text_refl (some a) = str_eq_refl a

pub same_number_refl : (a : Option ℕ) → same_number a a ≡ true
same_number_refl none = refl
same_number_refl (some a) = ground arith

pub same_text_iff : (a b : Option String) → (same_text a b ≡ true) ↔ (a ≡ b)
same_text_iff none none = ground arith
same_text_iff none (some b) = ground arith
same_text_iff (some a) none = ground arith
same_text_iff (some a) (some b) = ground (arith, str_eq_iff a b)

pub same_number_iff : (a b : Option ℕ) → (same_number a b ≡ true) ↔ (a ≡ b)
same_number_iff none none = ground arith
same_number_iff none (some b) = ground arith
same_number_iff (some a) none = ground arith
same_number_iff (some a) (some b) = ground arith

-- A conjunction is true when both sides are.
pub sql_and-true :
    (p q : Truth) → is_true (sql_and p q) ≡ true → (is_true p ≡ true) × (is_true q ≡ true)
sql_and-true none none h = cc
sql_and-true none (some true) h = cc
sql_and-true none (some false) h = cc
sql_and-true (some true) q h = (refl, h)
sql_and-true (some false) q h = cc

pub equals-same : (a b : Option String) → is_true (equals a b) ≡ true → a ≡ b
equals-same none b h = cc
equals-same (some a) none h = cc
equals-same (some a) (some b) h = ground (arith, str_eq_iff a b)

pub equal_numbers-same : (a b : Option ℕ) → is_true (equal_numbers a b) ≡ true → a ≡ b
equal_numbers-same none b h = cc
equal_numbers-same (some a) none h = cc
equal_numbers-same (some a) (some b) h = ground arith
