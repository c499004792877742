-- ===== src/EvidenceKeys/RoundTrip.antt =====
-- Recorded keys: `stored_key` and `raw_key` of app/services/evidence_store/keys.py.
use ai_agent_first_trust_por.Prelude.{
  ℕ, ◌/◌, ◌%◌, ◌<◌, true, false, some, List, [], ◌∷◌, ◌≡◌, refl, ap, ◌∙◌, arith, ◌==◌, any,
  Bool-cases, inl, inr,
}
use ai_agent_first_trust_por.EvidenceKeys.{
  is_control, hex_digit, is_hex_digit, hex_value, escapes, escape, stored_key, encoded, unescape,
  raw_key,
}

escapes-small : (c : ℕ) → escapes c ≡ true → c < 256
escapes-small c h = ground arith

digit-hex : (n : ℕ) → n < 16 → (is_hex_digit (hex_digit n) ≡ true) × (hex_value (hex_digit n) ≡ n)
digit-hex n h = ground arith

encoded-escape :
    (c : ℕ) (rest : List ℕ)
    → c < 256
    → encoded (hex_digit (c / 16) ∷ hex_digit (c % 16) ∷ rest) ≡ some c
unfolding encoded
encoded-escape c rest small =
    let (high, high_value) = digit-hex (c / 16) (omega arith) in
    let (low, low_value) = digit-hex (c % 16) (omega arith) in
    rw high (rw low (rw high_value (rw low_value (ap some (omega arith)))))

unescape-match :
    (c d : ℕ) (a b : ℕ) (rest : List ℕ)
    → (c == 37) ≡ true
    → encoded (a ∷ b ∷ rest) ≡ some d
    → unescape 0 (c ∷ a ∷ b ∷ rest) ≡ d ∷ unescape 0 rest
unfolding unescape
unescape-match c d a b rest percent e = rw (unescape, percent) (rw e refl)

unescape-plain :
    (c : ℕ) (rest : List ℕ) → (c == 37) ≡ false → unescape 0 (c ∷ rest) ≡ c ∷ unescape 0 rest
unfolding unescape
unescape-plain c rest plain = rw (unescape, plain) refl

unescape-escape : (key : List ℕ) → unescape 0 (escape key) ≡ key
unfolding escape
unescape-escape [] = unfold unescape in refl
unescape-escape (c ∷ key) = elim (Bool-cases (escapes c)) [
  | inl e ↦ rw e (
      unescape-match 37 c (hex_digit (c / 16)) (hex_digit (c % 16)) (escape key) refl
        (encoded-escape c (escape key) (escapes-small c e))
      ∙ ap (λ x. c ∷ x) (unescape-escape key))
  | inr e ↦
      rw e (unescape-plain c (escape key) (ground arith) ∙ ap (λ x. c ∷ x) (unescape-escape key))
]

-- Every key, whatever its characters, is the raw key of what it is recorded as.
pub raw_key-stored_key : (key : List ℕ) → raw_key (stored_key key).0 (stored_key key).1 ≡ key
unfolding raw_key stored_key
raw_key-stored_key key = elim (Bool-cases (any is_control key)) [
  | inl e ↦ rw e (unescape-escape key)
  | inr e ↦ rw e refl
]

digit-clean : (n : ℕ) → n < 16 → is_control (hex_digit n) ≡ false
digit-clean n h = ground arith

escape-clean : (key : List ℕ) → any is_control (escape key) ≡ false
unfolding escape
escape-clean [] = refl
escape-clean (c ∷ key) = elim (Bool-cases (escapes c)) [
  | inl e ↦
      let small : c < 256 = escapes-small c e in
      rw e (
        rw (digit-clean (c / 16) (omega arith))
          (rw (digit-clean (c % 16) (omega arith)) (escape-clean key)))
  | inr e ↦ let clean : is_control c ≡ false = ground arith in rw e (rw clean (escape-clean key))
]

-- What a key is recorded as holds no control character.
pub stored_key-clean : (key : List ℕ) → any is_control (stored_key key).0 ≡ false
unfolding stored_key
stored_key-clean key = elim (Bool-cases (any is_control key)) [
  | inl e ↦ rw e (escape-clean key)
  | inr e ↦ rw e e
]
