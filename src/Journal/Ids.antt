-- ===== src/Journal/Ids.antt =====
-- `new_uuid` of rust/worker/src/journal.rs. The random bytes are an argument.
use distributed_execution.Base.{
  ◌+◌, ◌%◌, Option, ◌∷◌, ◌++◌, take, drop, Bytes, ascii, Result, ok, ◌>>=◌, ok_or, hex,
}
use distributed_execution.Journal.Records.{JournalError, random}

-- `bytes[6] = (bytes[6] & 0x0f) | 0x40` and `bytes[8] = (bytes[8] & 0x3f) | 0x80`
abbrev pub versioned : Bytes → Bytes
versioned (b0 ∷ b1 ∷ b2 ∷ b3 ∷ b4 ∷ b5 ∷ b6 ∷ b7 ∷ b8 ∷ rest) =
    b0 ∷ b1 ∷ b2 ∷ b3 ∷ b4 ∷ b5 ∷ (b6 % 16 + 64) ∷ b7 ∷ (b8 % 64 + 128) ∷ rest
versioned bytes = bytes

-- The five groups of the digits.
unfoldable pub grouped : Bytes → Bytes
grouped digits =
    take 8 digits
    ++ (ascii "-"
        ++ (take 4 (drop 8 digits)
            ++ (ascii "-"
                ++ (take 4 (drop 12 digits)
                    ++ (ascii "-" ++ (take 4 (drop 16 digits) ++ (ascii "-" ++ drop 20 digits)))))))

-- `fill` is what the source of randomness fills the sixteen bytes with, or its failure.
unfoldable pub new_uuid : (fill : Option Bytes) → Result JournalError Bytes
unfolding grouped
new_uuid fill = do bytes ← ok_or fill random; ok (grouped (hex (versioned bytes)))
