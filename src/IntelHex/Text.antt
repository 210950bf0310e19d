-- ===== src/IntelHex/Text.antt =====
-- The text of an Intel HEX file, written from the format's description in prot_intel_hex.h.
use decom.Base.{
  total, ℕ, ◌+◌, ◌-◌, ◌*◌, ◌/◌, ◌%◌, ◌^◌, ◌<◌, ◌≢◌, true, false, List, [], ◌∷◌, ◌++◌, ltb, length,
  if◌then◌else◌, All,
}
use decom.Layer.{eid_of_port, Effect, to_lower}

abbrev pub start_code : ℕ
start_code = 0x3A

abbrev pub hex_digit : ℕ → ℕ
hex_digit n = if ltb n 10 then 0x30 + n else 0x37 + n

abbrev pub byte_text : ℕ → List ℕ
byte_text b = hex_digit (b / 16) ∷ hex_digit (b % 16) ∷ []

abbrev pub bytes_text : List ℕ → List ℕ
bytes_text [] = []
bytes_text (b ∷ bytes) = byte_text b ++ bytes_text bytes

-- The bytes of a record before its checksum, and the checksum.
abbrev pub record_bytes : (type offset : ℕ) → List ℕ → List ℕ
record_bytes type offset bytes = length bytes ∷ (offset / 256) ∷ (offset % 256) ∷ type ∷ bytes

abbrev pub checksum_of : ℕ → ℕ
checksum_of sum = (256 - sum % 256) % 256

abbrev pub record_text : (type offset : ℕ) → List ℕ → List ℕ
record_text type offset bytes =
    start_code
    ∷ (bytes_text (record_bytes type offset bytes)
        ++ byte_text (checksum_of (total (record_bytes type offset bytes))))

pub data HexRecord : Type 0 where
  data_record : (offset : ℕ) → List ℕ → HexRecord
  segment_address : ℕ → HexRecord
  linear_address : ℕ → HexRecord

abbrev pub text_of : HexRecord → List ℕ
text_of (data_record offset bytes) = record_text 0 offset bytes
text_of (segment_address a) = record_text 2 0 ((a / 256) ∷ (a % 256) ∷ [])
text_of (linear_address a) = record_text 4 0 ((a / 256) ∷ (a % 256) ∷ [])

-- A file: records with what stands before each, such as line ends, and the end-of-file record.
abbrev pub file_text : List (List ℕ × HexRecord) → List ℕ
file_text [] = record_text 1 0 []
file_text ((gap, r) ∷ lines) = gap ++ (text_of r ++ file_text lines)

-- The base address behind a record, and what a reader of the file sends.
abbrev pub next_base : ℕ → HexRecord → ℕ
next_base base (data_record offset bytes) = base
next_base base (segment_address a) = a * 16
next_base base (linear_address a) = a * 2 ^ 16

abbrev pub sent_for : ℕ → HexRecord → List Effect
sent_for base (data_record offset bytes) =
    to_lower bytes (eid_of_port ((base + offset) % 2 ^ 32)) true ∷ []
sent_for base (segment_address a) = []
sent_for base (linear_address a) = []

abbrev pub sent : ℕ → List (List ℕ × HexRecord) → List Effect
sent base [] = to_lower [] (eid_of_port 0) false ∷ []
sent base ((gap, r) ∷ lines) = sent_for base r ++ sent (next_base base r) lines

-- The fields of a record fit their places.
abbrev pub IsRecord : HexRecord → Type 0
IsRecord (data_record offset bytes) =
    (offset < 65536) × (length bytes < 256) × All (λ b. b < 256) bytes
IsRecord (segment_address a) = a < 65536
IsRecord (linear_address a) = a < 65536

abbrev pub IsFile : List (List ℕ × HexRecord) → Type 0
IsFile [] = Unit {0}
IsFile ((gap, r) ∷ lines) = All (λ c. c ≢ start_code) gap × IsRecord r × IsFile lines
