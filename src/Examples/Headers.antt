-- ===== src/Examples/Headers.antt =====
-- core/hivesum.cpp at a header of zeros, and `HvpVerifyHiveHeader` at one that was written.
use ntreg.Base.{ℕ, ◌≡◌, ◌≢◌, refl, false, not, ◌&&◌, ◌==◌, arith}
use ntreg.Base.Word.{Word, inv, is_zero}
use ntreg.Header.Checksum.{hive_header_checksum}
use ntreg.Header.Checksum.Laws.{hive_header_checksum-proper}
use ntreg.Header.Verify.{is_format_known, verify_hive_header}
use ntreg.Header.Verify.Laws.{verify_hive_header-end_write, verify_hive_header-changed}
use ntreg.Writing.File.{BaseBlock, words, seal, begin_write, end_write}
use ntreg.Examples.Files.{base}

abbrev zeros : ℕ → Word
zeros i k = false

hive_header_checksum-proper_example :
    (is_zero (hive_header_checksum zeros) ≡ false)
    × (is_zero (inv (hive_header_checksum zeros)) ≡ false)
hive_header_checksum-proper_example = hive_header_checksum-proper zeros

abbrev written : BaseBlock
written = end_write (begin_write 0 base)

-- Bit 5 of the reserved word 60 is set.
abbrev damaged : BaseBlock
damaged = record written { other = λ n k. (n == 60) && (k == 5) }

damaged-else : (i : ℕ) → i ≢ 60 → words damaged i 5 ≡ words written i 5
unfolding words end_write begin_write seal
damaged-else i apart = ground (arith, apart)

damaged-there : words damaged 60 5 ≡ not (words written 60 5)
unfolding words end_write begin_write seal
damaged-there = refl

verify_hive_header-changed_example : verify_hive_header damaged 0 ≡ false
unfolding is_format_known
verify_hive_header-changed_example =
    verify_hive_header-changed written damaged 60 5 0 0 (omega arith) (omega arith) (omega arith)
      (λ i summed. damaged-else i) damaged-there refl
      (verify_hive_header-end_write base 0 0 refl refl)
