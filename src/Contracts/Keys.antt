-- ===== src/Contracts/Keys.antt =====
-- When two events share a Kafka message key, and so a partition.
use Prim.Native.Char.{Char}
use Prim.Native.String.{[], ◌∷◌, ◌++◌}
use text.Mathlib.TextLemmas.{nil-append, cons-append, append_assoc, cons-eq-cons}
use mathlib.Core.Path.{ap₂}
use tikblog_unsubscribe_plat.Base.{String, ◌≡◌, refl, sym, ◌∙◌, ◌≢◌}
use tikblog_unsubscribe_plat.Contracts.Model.{UnsubscribeEvent}
use tikblog_unsubscribe_plat.Contracts.Avro.{message_key}

-- The character does not occur in the text.
abbrev pub Lacks : Char → String → Type 0
Lacks x [] = Unit
Lacks x (c ∷ s) = (c ≢ x) × Lacks x s

split_at :
    (x : Char) (s t u v : String)
    → Lacks x s
    → Lacks x t
    → s ++ (x ∷ u) ≡ t ++ (x ∷ v)
    → (s ≡ t) × (u ≡ v)
split_at x [] [] u v hs ht e = (refl, (cons-eq-cons.0 (rw (nil-append, nil-append) at e)).1)
split_at x [] (c ∷ t) u v hs ht e =
    absurd (ht.0 (sym (cons-eq-cons.0 (rw (nil-append, cons-append) at e)).0))
split_at x (c ∷ s) [] u v hs ht e =
    absurd (hs.0 (cons-eq-cons.0 (rw (cons-append, nil-append) at e)).0)
split_at x (c ∷ s) (d ∷ t) u v hs ht e =
    let (head_eq, tail_eq) = cons-eq-cons.0 (rw (cons-append, cons-append) at e) in
    let (s_eq, u_eq) = split_at x s t u v hs.1 ht.1 tail_eq in (ap₂ ◌∷◌ head_eq s_eq, u_eq)

key_regroup : (s t : String) → (s ++ ":") ++ t ≡ s ++ (":" ∷ t)
key_regroup s t = append_assoc s ":" t ∙ rw (cons-append, nil-append) refl

-- Two events whose user ids hold no ':' share a message key only if they are about the same user and
-- writer.
pub message_key_injective :
    (a b : UnsubscribeEvent)
    → Lacks ":" a.user_id
    → Lacks ":" b.user_id
    → message_key a ≡ message_key b
    → (a.user_id ≡ b.user_id) × (a.writer_id ≡ b.writer_id)
unfolding message_key
message_key_injective a b ha hb e =
    split_at ":" a.user_id b.user_id a.writer_id b.writer_id ha hb
      (sym (key_regroup a.user_id a.writer_id) ∙ e ∙ key_regroup b.user_id b.writer_id)
