-- ===== src/Identity/Text.antt =====
-- The text operations of backend/src/evagg/identity on code points. `strip` and `lower` are those of
-- Python on ASCII text.
use evaggregator.Base.{
  Bool, KeyEq, List, [], arith, false, if◌then◌else◌, leb, map, nat_beq, nat_eq, true, ℕ, ◌&&◌, ◌+◌,
  ◌==◌, ◌||◌, ◌↔◌, ◌∷◌, ◌≡◌,
}
use mathlib.Core.List.{reverse}

abbrev pub Text : Type 0
Text = List ℕ

abbrev pub text_beq : Text → Text → Bool
text_beq [] [] = true
text_beq [] (d ∷ t) = false
text_beq (c ∷ s) [] = false
text_beq (c ∷ s) (d ∷ t) = nat_beq c d && text_beq s t

pub text_beq_iff : (s t : Text) → (text_beq s t ≡ true) ↔ (s ≡ t)
text_beq_iff [] [] = ground arith
text_beq_iff [] (d ∷ t) = ground arith
text_beq_iff (c ∷ s) [] = ground arith
text_beq_iff (c ∷ s) (d ∷ t) = ground (arith, text_beq_iff s t)

instance abbrev pub text_eq : KeyEq Text
text_eq = record { agree = text_beq; agree_iff = text_beq_iff }

-- tab to carriage return, the four separators, and the space
abbrev pub is_space : ℕ → Bool
is_space c = (leb 9 c && leb c 13) || (leb 28 c && leb c 32)

abbrev pub lower_char : ℕ → ℕ
lower_char c = if leb 65 c && leb c 90 then c + 32 else c

abbrev pub lower : Text → Text
lower s = map lower_char s

abbrev pub lstrip : Text → Text
lstrip [] = []
lstrip (c ∷ s) = let rest = lstrip s in if is_space c then rest else c ∷ s

abbrev pub strip : Text → Text
strip s = reverse (lstrip (reverse (lstrip s)))

-- `email.strip().lower()`
unfoldable pub normalized : Text → Text
normalized email = lower (strip email)

abbrev pub starts_with : ℕ → Text → Bool
starts_with c [] = false
starts_with c (d ∷ s) = d == c

abbrev pub ends_with : ℕ → Text → Bool
ends_with c s = starts_with c (reverse s)
