-- ===== src/Writing/File.antt =====
-- The base block of a hive (include/hivedata.hpp), the calls that core/hivewrt.cpp makes to write and
-- flush its files, and how those calls follow each other. A byte is a `Word` of which eight bits
-- count; the base block is laid out with characters of 16 bits.
use ntreg.Base.{ℕ, ◌+◌, ◌*◌, ◌/◌, ◌%◌, ◌^◌, Bool, ◌==◌, if◌then◌else◌, List, ◌∷◌, add32}
use ntreg.Base.Word.{Word}
use ntreg.Header.Checksum.{hive_header_checksum}
use ntreg.Cells.State.{Hive}

pub record BaseBlock : Type 0 where
  pub signature : ℕ
  pub sequence1 : ℕ
  pub sequence2 : ℕ
  pub time_stamp : ℕ
  pub major : ℕ
  pub minor : ℕ
  pub file_type : ℕ
  pub format : ℕ
  pub cluster : ℕ
  pub check_sum : Word
  -- The words with none of these fields, by their index.
  pub other : ℕ → Word

-- HFILE_TYPE_PRIMARY, HFILE_TYPE_LOG and HFILE_TYPE_ALTERNATE
abbrev pub primary_file : ℕ
primary_file = 0

abbrev pub log_file : ℕ
log_file = 1

abbrev pub alternate_file : ℕ
alternate_file = 3

abbrev pub bits : ℕ → Word
bits n i = n / 2 ^ i % 2 == 1

unfoldable pub words : BaseBlock → ℕ → Word
words b n =
    if n == 0
    then bits b.signature
    else if n == 1
    then bits b.sequence1
    else if n == 2
    then bits b.sequence2
    else if n == 3
    then bits (b.time_stamp % 2 ^ 32)
    else if n == 4
    then bits (b.time_stamp / 2 ^ 32)
    else if n == 5
    then bits b.major
    else if n == 6
    then bits b.minor
    else if n == 7
    then bits b.file_type
    else if n == 8
    then bits b.format
    else if n == 11
    then bits b.cluster
    else if n == 127
    then b.check_sum
    else b.other n

-- The bytes of words.
abbrev pub bytes : (ℕ → Word) → ℕ → Word
bytes w k i = w (k / 4) (8 * (k % 4) + i)

-- BaseBlock->CheckSum = HvpHiveHeaderChecksum(BaseBlock)
unfoldable pub seal : BaseBlock → BaseBlock
seal b = record b { check_sum = hive_header_checksum (words b) }

-- The step of each sequence number: the primary one goes ahead of the writes, and the secondary one
-- follows when they are done.
unfoldable pub begin_write : ℕ → BaseBlock → BaseBlock
begin_write kind b = seal (record b { file_type = kind; sequence1 = add32 b.sequence1 1 })

unfoldable pub end_write : BaseBlock → BaseBlock
end_write b = seal (record b { sequence2 = add32 b.sequence2 1 })

-- A call of `FileWrite`, with the file, the offset, the buffer and its length, or of `FileFlush`.
pub data Event : Type 0 where
  file_write : (file offset : ℕ) → (ℕ → Word) → (length : ℕ) → Event
  file_flush : (file : ℕ) → Event

-- A hive and the calls made for it so far, the latest first. `memory` is the byte at an address.
pub record HiveFile : Type 0 where
  pub hive : Hive
  pub base_block : BaseBlock
  pub memory : ℕ → Word
  -- `HiveFlags & HIVE_VOLATILE`
  pub is_volatile : Bool
  pub log : Bool
  pub alternate : Bool
  pub trace : List Event

-- The BOOLEAN that an operation returns, with the hive as it leaves it. `stuck` is a loop that did
-- not end on its fuel.
pub data Result : Type 0 where
  succeeded : HiveFile → Result
  failed : HiveFile → Result
  stuck : Result

abbrev pub Operation : Type 0
Operation = HiveFile → Result

infixl 5 ◌>>◌
abbrev pub ◌>>◌ : Operation → Operation → Operation
p >> q = λ s. elim (p s) [ succeeded t ↦ q t | failed t ↦ failed t | stuck ↦ stuck ]

-- A change of the base block in memory.
unfoldable pub with_base : (BaseBlock → BaseBlock) → Operation
with_base change s = succeeded (record s { base_block = change s.base_block })

-- What the callbacks answer, by the calls before and the call.
abbrev pub Answers : Type 0
Answers = List Event → Event → Bool

unfoldable pub issue : Answers → Event → Operation
issue accepts e s =
    let t : HiveFile = record s { trace = e ∷ s.trace } in
    if accepts s.trace e then succeeded t else failed t

-- The first bytes of the base block, to the start of a file.
unfoldable pub write_base : Answers → (file length : ℕ) → Operation
write_base accepts file length s =
    issue accepts (file_write file 0 (bytes (words s.base_block)) length) s

-- The bytes of a block of the stable storage.
abbrev pub block_bytes : HiveFile → ℕ → ℕ → Word
block_bytes s i k = s.memory (s.hive.stable_storage.block_address i + k)
