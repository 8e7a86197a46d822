-- ===== src/Header/Verify.antt =====
-- core/hiveinit.cpp, `HvpVerifyHiveHeader`.
pub mod Laws
use ntreg.Base.{ℕ, Bool, ◌&&◌, leb, ◌==◌}
use ntreg.Base.Word.{Word, is_zero}
use ntreg.Header.Checksum.{xor, hive_header_checksum}
use ntreg.Writing.File.{BaseBlock, words}

-- HV_HBLOCK_SIGNATURE, HSYS_MAJOR, HSYS_MINOR and HBASE_FORMAT_MEMORY, and one block in a cluster.
unfoldable pub is_format_known : BaseBlock → Bool
is_format_known b =
    (b.signature == 0x6667_6572)
    && (b.major == 1)
    && leb 3 b.minor
    && (b.format == 1)
    && (b.cluster == 1)

abbrev pub is_equal : Word → Word → Bool
is_equal a b = is_zero (xor a b)

-- The order of the conditions of the source does not matter: none of them has an effect.
unfoldable pub verify_hive_header : BaseBlock → (file_type : ℕ) → Bool
verify_hive_header b kind =
    is_format_known b
    && (b.file_type == kind)
    && (b.sequence1 == b.sequence2)
    && is_equal (hive_header_checksum (words b)) b.check_sum
