-- ===== src/Control/Identity.antt =====
-- The identity tests of rust/worker/src/control/work.rs.
use distributed_execution.Base.{
  ℕ, ◌+◌, ◌≡◌, arith, Bool, true, not, ◌&&◌, ◌||◌, ◌==◌, leb, if◌then◌else◌, [], ◌∷◌, Option, none,
  some, length, Bytes, bytes_eq, ascii, Result, ok, err,
}
use distributed_execution.Control.Messages.{WorkerSession, ClientError, configuration}

abbrev is_digit : ℕ → Bool
is_digit b = leb b'0' b && leb b b'9'

abbrev pub is_lower_hex : ℕ → Bool
is_lower_hex b = is_digit b || leb b'a' b && leb b b'f'

unfoldable pub uuid_byte : ℕ → ℕ → Bool
uuid_byte n b = if n == 8 || n == 13 || n == 18 || n == 23 then b == b'-' else is_lower_hex b

-- `value.bytes().enumerate().all(…)`, from position `n`.
unfoldable pub uuid_bytes : ℕ → Bytes → Bool
unfolding uuid_byte
uuid_bytes n [] = true
uuid_bytes n (b ∷ bs) = uuid_byte n b && uuid_bytes (n + 1) bs

unfoldable pub canonical_uuid : Bytes → Bool
unfolding uuid_bytes bytes_eq
canonical_uuid value =
    length value == 36
    && not (bytes_eq value (ascii "00000000-0000-0000-0000-000000000000"))
    && uuid_bytes 0 value

abbrev session_check : WorkerSession → Result ClientError WorkerSession
session_check s =
    if canonical_uuid s.worker_id && canonical_uuid s.session_id then ok s else err configuration

unfoldable pub valid_session : Option WorkerSession → Result ClientError WorkerSession
valid_session none = err configuration
valid_session (some s) = session_check s

pub canonical_uuid-length : (v : Bytes) → canonical_uuid v ≡ true → length v ≡ 36
unfolding canonical_uuid
canonical_uuid-length v h = ground arith

-- `value.bytes().all(…)`
abbrev hash_bytes : Bytes → Bool
hash_bytes [] = true
hash_bytes (b ∷ bs) = is_lower_hex b && hash_bytes bs

abbrev pub lower_hash : Bytes → Bool
lower_hash value = length value == 64 && hash_bytes value

-- `is_ascii_alphabetic`
abbrev pub is_alphabetic : ℕ → Bool
is_alphabetic b = leb b'A' b && leb b b'Z' || leb b'a' b && leb b b'z'

-- `is_ascii_alphanumeric`
abbrev pub is_alphanumeric : ℕ → Bool
is_alphanumeric b = is_digit b || is_alphabetic b
