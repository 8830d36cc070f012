-- ===== src/Journal/Fresh.antt =====
-- The identities that `new_uuid` of rust/worker/src/journal.rs makes.
use mathlib.Core.Path.{subst}
use distributed_execution.Base.{
  ℕ, ◌+◌, ◌/◌, ◌%◌, ◌<◌, ◌≡◌, refl, sym, arith, true, false, ◌||◌, Option, none, some, Bool-cases,
  inl, inr, get_elem?, [], ◌∷◌, ◌++◌, ◌∙◌, ◌==◌, ap, Bytes, All, length, ok, hex, hex_digit,
  bytes_eq, bytes_eq_iff, ascii,
}
use distributed_execution.Control.{canonical_uuid, is_lower_hex, uuid_bytes, uuid_byte}
use distributed_execution.Journal.Ids.{new_uuid, grouped, versioned}

abbrev pub IsByte : ℕ → Type 0
IsByte b = b < 256

digit_lower : (n : ℕ) → n < 16 → is_lower_hex (hex_digit n) ≡ true
digit_lower n h = ground arith

high_lower : (b : ℕ) → b < 256 → is_lower_hex (hex_digit (b / 16)) ≡ true
high_lower b h = digit_lower (b / 16) (omega arith)

low_lower : (b : ℕ) → is_lower_hex (hex_digit (b % 16)) ≡ true
low_lower b = digit_lower (b % 16) (omega arith)

-- No dash belongs at the positions from `n` on.
abbrev Inner : ℕ → Bytes → Type 0
Inner n [] = Unit {0}
Inner n (b ∷ digits) = ((n == 8 || n == 13 || n == 18 || n == 23) ≡ false) × Inner (n + 1) digits

-- A digit of the text.
abbrev Lower : ℕ → Type 0
Lower b = is_lower_hex b ≡ true

Lower-byte :
    (n b : ℕ) (rest : Bytes)
    → (n == 8 || n == 13 || n == 18 || n == 23) ≡ false
    → Lower b
    → uuid_bytes n (b ∷ rest) ≡ uuid_bytes (n + 1) rest
unfolding uuid_bytes
Lower-byte n b rest h k = rw (uuid_byte, h, k) refl

Lower-run :
    (n : ℕ) (digits rest : Bytes)
    → Inner n digits
    → All Lower digits
    → uuid_bytes n (digits ++ rest) ≡ uuid_bytes (n + length digits) rest
Lower-run n [] rest h k = rw⁻¹ (zero_more n) refl
  where
    zero_more : (m : ℕ) → m ≡ m + 0
    zero_more m = omega arith
Lower-run n (b ∷ digits) rest (h, inner) (k, lower) =
    Lower-byte n b (digits ++ rest) h k
    ∙ Lower-run (n + 1) digits rest inner lower
    ∙ ap (λ m. uuid_bytes m rest) (omega arith)

hex-Lower : (bytes : Bytes) → All IsByte bytes → All Lower (hex bytes)
hex-Lower [] h = tt
hex-Lower (b ∷ bytes) (k, h) = (high_lower b k, (low_lower b, hex-Lower bytes h))

-- A group of digits and the dash after it.
group :
    (n : ℕ) (bytes rest : Bytes)
    → Inner n (hex bytes)
    → All IsByte bytes
    → uuid_bytes n (hex bytes ++ rest) ≡ uuid_bytes (n + length (hex bytes)) rest
group n bytes rest inner h = Lower-run n (hex bytes) rest inner (hex-Lower bytes h)

version-IsByte : (b : ℕ) → IsByte (b % 16 + 64)
version-IsByte b = omega arith

variant-IsByte : (b : ℕ) → IsByte (b % 64 + 128)
variant-IsByte b = omega arith

module _ (a b c d e f g h i j k l m n o p : ℕ) where
  abbrev drawn : Bytes
  drawn = a ∷ b ∷ c ∷ d ∷ e ∷ f ∷ g ∷ h ∷ i ∷ j ∷ k ∷ l ∷ m ∷ n ∷ o ∷ p ∷ []

  -- The text from the dashes on.
  abbrev tail4 : Bytes
  tail4 = b'-' ∷ hex (k ∷ l ∷ m ∷ n ∷ o ∷ p ∷ [])

  abbrev tail3 : Bytes
  tail3 = b'-' ∷ hex ((i % 64 + 128) ∷ j ∷ []) ++ tail4

  abbrev tail2 : Bytes
  tail2 = b'-' ∷ hex ((g % 16 + 64) ∷ h ∷ []) ++ tail3

  abbrev tail1 : Bytes
  tail1 = b'-' ∷ hex (e ∷ f ∷ []) ++ tail2

  abbrev text : Bytes
  text = hex (a ∷ b ∷ c ∷ d ∷ []) ++ tail1

  grouped-text : grouped (hex (versioned drawn)) ≡ text
  unfolding grouped
  grouped-text = refl

  text_bytes : All IsByte drawn → uuid_bytes 0 text ≡ true
  unfolding uuid_bytes uuid_byte
  text_bytes (ha, (hb, (hc, (hd, (he, (hf, (hg, (hh, (hi, (hj, rest)))))))))) =
      group 0 (a ∷ b ∷ c ∷ d ∷ []) tail1 (ground arith) (ha, (hb, (hc, (hd, tt))))
      ∙ group 9 (e ∷ f ∷ []) tail2 (ground arith) (he, (hf, tt))
      ∙ group 14 ((g % 16 + 64) ∷ h ∷ []) tail3 (ground arith) (version-IsByte g, (hh, tt))
      ∙ group 19 ((i % 64 + 128) ∷ j ∷ []) tail4 (ground arith) (variant-IsByte i, (hj, tt))
      ∙ group 24 (k ∷ l ∷ m ∷ n ∷ o ∷ p ∷ []) [] (ground arith) rest

  version_digit : hex_digit ((g % 16 + 64) / 16) ≡ b'4'
  version_digit = ground arith

  not_nil : bytes_eq text (ascii "00000000-0000-0000-0000-000000000000") ≡ false
  not_nil = elim (Bool-cases (bytes_eq text (ascii "00000000-0000-0000-0000-000000000000"))) [
    | inl same ↦
        let digit = ap (λ bytes. get_elem? bytes 14) ((bytes_eq_iff _ _).0 same) in
        absurd (four (sym version_digit ∙ some_byte _ _ digit))
    | inr different ↦ different
  ]
    where
      some_byte : (x y : ℕ) → ◌≡◌ {A = Option ℕ} (some x) (some y) → x ≡ y
      some_byte x y e = ap (λ found. elim found [ none ↦ x | some z ↦ z ]) e

      four : ◌≡◌ {A = ℕ} b'4' b'0' → ⊥
      four e = omega arith

  text_canonical : All IsByte drawn → canonical_uuid text ≡ true
  unfolding canonical_uuid
  text_canonical bytes = rw (not_nil, text_bytes bytes) refl

new_uuid_text :
    (bytes : Bytes)
    → length bytes ≡ 16
    → All IsByte bytes
    → canonical_uuid (grouped (hex (versioned bytes))) ≡ true
new_uuid_text [] size bytes = absurd (omega arith)
new_uuid_text (a ∷ []) size bytes = absurd (omega arith)
new_uuid_text (a ∷ b ∷ []) size bytes = absurd (omega arith)
new_uuid_text (a ∷ b ∷ c ∷ []) size bytes = absurd (omega arith)
new_uuid_text (a ∷ b ∷ c ∷ d ∷ []) size bytes = absurd (omega arith)
new_uuid_text (a ∷ b ∷ c ∷ d ∷ e ∷ []) size bytes = absurd (omega arith)
new_uuid_text (a ∷ b ∷ c ∷ d ∷ e ∷ f ∷ []) size bytes = absurd (omega arith)
new_uuid_text (a ∷ b ∷ c ∷ d ∷ e ∷ f ∷ g ∷ []) size bytes = absurd (omega arith)
new_uuid_text (a ∷ b ∷ c ∷ d ∷ e ∷ f ∷ g ∷ h ∷ []) size bytes = absurd (omega arith)
new_uuid_text (a ∷ b ∷ c ∷ d ∷ e ∷ f ∷ g ∷ h ∷ i ∷ []) size bytes = absurd (omega arith)
new_uuid_text (a ∷ b ∷ c ∷ d ∷ e ∷ f ∷ g ∷ h ∷ i ∷ j ∷ []) size bytes = absurd (omega arith)
new_uuid_text (a ∷ b ∷ c ∷ d ∷ e ∷ f ∷ g ∷ h ∷ i ∷ j ∷ k ∷ []) size bytes = absurd (omega arith)
new_uuid_text (a ∷ b ∷ c ∷ d ∷ e ∷ f ∷ g ∷ h ∷ i ∷ j ∷ k ∷ l ∷ []) size bytes = absurd (omega arith)
new_uuid_text (a ∷ b ∷ c ∷ d ∷ e ∷ f ∷ g ∷ h ∷ i ∷ j ∷ k ∷ l ∷ m ∷ []) size bytes =
    absurd (omega arith)
new_uuid_text (a ∷ b ∷ c ∷ d ∷ e ∷ f ∷ g ∷ h ∷ i ∷ j ∷ k ∷ l ∷ m ∷ n ∷ []) size bytes =
    absurd (omega arith)
new_uuid_text (a ∷ b ∷ c ∷ d ∷ e ∷ f ∷ g ∷ h ∷ i ∷ j ∷ k ∷ l ∷ m ∷ n ∷ o ∷ []) size bytes =
    absurd (omega arith)
new_uuid_text (a ∷ b ∷ c ∷ d ∷ e ∷ f ∷ g ∷ h ∷ i ∷ j ∷ k ∷ l ∷ m ∷ n ∷ o ∷ p ∷ []) size bytes =
    subst (λ t. canonical_uuid t ≡ true) (sym (grouped-text a b c d e f g h i j k l m n o p))
      (text_canonical a b c d e f g h i j k l m n o p bytes)
new_uuid_text (a ∷ b ∷ c ∷ d ∷ e ∷ f ∷ g ∷ h ∷ i ∷ j ∷ k ∷ l ∷ m ∷ n ∷ o ∷ p ∷ q ∷ more) size
      bytes =
    absurd (omega arith)

-- An identity made of sixteen random bytes is always canonical, and never the nil one.
pub new_uuid-canonical_uuid :
    (bytes : Bytes)
    → length bytes ≡ 16
    → All IsByte bytes
    → (id : Bytes) × (new_uuid (some bytes) ≡ ok id) × (canonical_uuid id ≡ true)
unfolding new_uuid
new_uuid-canonical_uuid bytes size h =
    (grouped (hex (versioned bytes)), refl, new_uuid_text bytes size h)
