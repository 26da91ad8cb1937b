-- ===== src/Tickets/Service/Accepted.antt =====
-- The requests that validation lets through.
use mathlib.Core.Bool.{false≢true}
use polyglot_ticketing_v.Base.{
  ◌≤◌, ◌≡◌, refl, sym, ◌∙◌, ◌↔◌, Bool, true, ◌&&◌, [], ◌∷◌, arith, Text, text_eq, byte_len, leb,
  Bool-cases, inl, inr, length,
}
use polyglot_ticketing_v.Base.Validation.{violation}
use polyglot_ticketing_v.Tickets.Service.{all_printable, validate_idempotency_key}

-- Each character is a printable one of ASCII.
abbrev pub IsPrintable : Text → Type 0
IsPrintable [] = Unit
IsPrintable (c ∷ s) = (32 ≤ c) × (c ≤ 126) × IsPrintable s

all_printable_iff :
    (valid : Bool) (s : Text) → (all_printable valid s ≡ true) ↔ ((valid ≡ true) × IsPrintable s)
unfolding all_printable
all_printable_iff valid [] = ground arith
all_printable_iff valid (c ∷ s) =
    ground (arith, all_printable_iff (valid && leb 32 c && leb c 126) s)

-- Printable characters are a byte each.
byte_len-IsPrintable : (s : Text) → IsPrintable s → byte_len s ≡ length s
unfolding byte_len
byte_len-IsPrintable [] p = refl
byte_len-IsPrintable (c ∷ s) p = ground (arith, byte_len-IsPrintable s p.2)

key-IsPrintable :
    (key : Text)
    → (all_printable (leb (byte_len key) 128) key ≡ true) ↔ ((length key ≤ 128) × IsPrintable key)
key-IsPrintable key = (
  λ h.
      let (short, p) = (all_printable_iff (leb (byte_len key) 128) key).0 h in
      (ground (arith, byte_len-IsPrintable key p), p),
  λ h.
      (all_printable_iff (leb (byte_len key) 128) key).1
        (ground (arith, byte_len-IsPrintable key h.1), h.1),
)

-- The key of an update is accepted if and only if it has 1 to 128 characters, each a printable one
-- of ASCII, as the message of a refusal says.
pub validate_idempotency_key_lem :
    (key : Text)
    → (validate_idempotency_key key true ≡ [])
      ↔ ((1 ≤ length key) × (length key ≤ 128) × IsPrintable key)
unfolding validate_idempotency_key violation text_eq
validate_idempotency_key_lem [] = ground arith
validate_idempotency_key_lem (c ∷ s) =
    elim (Bool-cases (all_printable (leb (byte_len (c ∷ s)) 128) (c ∷ s))) [
      | inl valid ↦ rw valid (
        λ _. let (short, p) = (key-IsPrintable (c ∷ s)).0 valid in (ground arith, short, p),
        λ _. refl,
      )
      | inr other ↦ rw other (
        λ h. absurd (ground arith),
        λ h. absurd (false≢true (sym other ∙ (key-IsPrintable (c ∷ s)).1 (h.1, h.2))),
      )
    ]
