-- ===== src/ChunkedFiles/Slices.antt =====
-- The parts that `split` of app/services/chunked_files.py makes: their bytes, names and number.
use Prim.Native.Nat.mul
use ai_agent_first_trust_por.Prelude.{
  ℕ, zero, suc, ◌+◌, ◌-◌, ◌*◌, ◌≤◌, ◌<◌, String, false, not, ◌&&◌, List, [], ◌∷◌, ◌++◌, ◌≡◌, refl,
  ap, ◌∙◌, arith, ◌==◌, length, take, drop, take-append-drop, length-drop, length-take,
}
use ai_agent_first_trust_por.ChunkedFiles.Manifest.{part_name}
use ai_agent_first_trust_por.ChunkedFiles.Transfer.{slices}

-- the bytes of the parts, joined
abbrev pub joined : List (String × List ℕ) → List ℕ
joined [] = []
joined (p ∷ ps) = p.1 ++ joined ps

-- the parts are named by their places and not empty
abbrev pub Placed : String → ℕ → List (String × List ℕ) → Type 0
Placed name index [] = Unit
Placed name index (p ∷ ps) =
    (p.0 ≡ part_name name index) × (0 < length p.1) × Placed name (suc index) ps

count_step :
    (k part_size len left : ℕ)
    → 0 < part_size
    → (left ≡ 0 → k ≡ 0)
    → k * part_size ≤ left + part_size - 1
    → left ≡ suc len - part_size
    → suc k * part_size ≤ suc len + part_size - 1
count_step k part_size len zero pos no_more ih is =
    let empty : k * part_size ≡ 0 = ap (λ x. x * part_size) (no_more refl) ∙ mul.zero part_size in
    omega (arith, mul.suc k part_size)
count_step k part_size len (suc left) pos no_more ih is = omega (arith, mul.suc k part_size)

-- some part holds the first byte
pub parts_of_bytes :
    (ps : List (String × List ℕ)) (bytes : List ℕ)
    → joined ps ≡ bytes
    → (length ps == 0 && not (length bytes == 0)) ≡ false
parts_of_bytes [] [] whole = refl
parts_of_bytes [] (b ∷ bytes) whole = cc
parts_of_bytes (p ∷ ps) bytes whole = ground arith

module _ (sha256_hex : List ℕ → String) where
  pub slices-joined :
      (name : String) (part_size fuel index : ℕ) (bytes : List ℕ)
      → 0 < part_size
      → length bytes ≤ fuel
      → joined (slices sha256_hex name part_size fuel index bytes) ≡ bytes
  unfolding slices
  slices-joined name part_size zero index [] pos enough = refl
  slices-joined name part_size zero index (b ∷ bytes) pos enough = absurd (omega arith)
  slices-joined name part_size (suc fuel) index [] pos enough = refl
  slices-joined name part_size (suc fuel) index (b ∷ bytes) pos enough =
      ap (λ x. take part_size (b ∷ bytes) ++ x)
        (slices-joined name part_size fuel (suc index) (drop part_size (b ∷ bytes)) pos
          (omega (arith, length-drop part_size (b ∷ bytes))))
      ∙ take-append-drop part_size (b ∷ bytes)

  pub slices-Placed :
      (name : String) (part_size fuel index : ℕ) (bytes : List ℕ)
      → 0 < part_size
      → Placed name index (slices sha256_hex name part_size fuel index bytes)
  unfolding slices
  slices-Placed name part_size zero index bytes pos = tt
  slices-Placed name part_size (suc fuel) index [] pos = tt
  slices-Placed name part_size (suc fuel) index (b ∷ bytes) pos = (
    refl,
    omega (arith, length-take part_size (b ∷ bytes)),
    slices-Placed name part_size fuel (suc index) (drop part_size (b ∷ bytes)) pos,
  )

  slices-none :
      (name : String) (part_size fuel index : ℕ) (bytes : List ℕ)
      → length bytes ≡ 0
      → length (slices sha256_hex name part_size fuel index bytes) ≡ 0
  unfolding slices
  slices-none name part_size zero index [] h = refl
  slices-none name part_size (suc fuel) index [] h = refl
  slices-none name part_size fuel index (b ∷ bytes) h = absurd (omega arith)

  pub slices-count :
      (name : String) (part_size fuel index : ℕ) (bytes : List ℕ)
      → 0 < part_size
      → length (slices sha256_hex name part_size fuel index bytes) * part_size
        ≤ length bytes + part_size - 1
  unfolding slices
  slices-count name part_size zero index bytes pos = omega (arith, mul.zero part_size)
  slices-count name part_size (suc fuel) index [] pos = omega (arith, mul.zero part_size)
  slices-count name part_size (suc fuel) index (b ∷ bytes) pos =
      let rest : List (String × List ℕ) =
        slices sha256_hex name part_size fuel (suc index) (drop part_size (b ∷ bytes)) in
      let ih : length rest * part_size ≤ length (drop part_size (b ∷ bytes)) + part_size - 1 =
        slices-count name part_size fuel (suc index) (drop part_size (b ∷ bytes)) pos in
      let left : length (drop part_size (b ∷ bytes)) ≡ suc (length bytes) - part_size =
        length-drop part_size (b ∷ bytes) in
      count_step (length rest) part_size (length bytes) (length (drop part_size (b ∷ bytes))) pos
        (slices-none name part_size fuel (suc index) (drop part_size (b ∷ bytes))) ih left
