-- ===== src/Lib.antt =====
-- NTREG, a registry database after that of Windows NT: hives of cells on disk and in memory, keys
-- and values in the cells, and an API over them. Paths below are from the repository's root.
--
-- The parts and how they interact. A hive (include/hivedata.hpp) keeps its cells in blocks of 4096
-- bytes, those of a stable and those of a volatile storage; core/hivecell.cpp finds, allocates and
-- frees cells and marks their blocks in a bitmap (core/bitmap.cpp, on the bit scans of
-- core/rtl.cpp), by which core/hivewrt.cpp writes them to the hive's files. Keys and values are
-- cells; their names are stored and compared by core/cmname.cpp. A key has an index of subkeys for
-- each storage, a leaf or a root of leaves, which core/cmindex.cpp searches with those comparisons.
-- The API and the tools call these.
--
-- Which file models which part. State is passed explicitly: an operation takes a record and returns
-- a new one. A definition has the name of its function in lower case without its prefix, and a loop
-- of the function is a definition of its own, named in the comment above it.
--   Base: numbers, lists and 32-bit words. A `ULONG` is a native number, with sums and differences
--     modulo 2 ^ 32 (add32, sub32), or, where the code works on its bits, a function from positions
--     to bits (Word); a `LONG` is an integer.
--   Rtl.Scan: core/rtl.cpp, BitScanForward and BitScanReverse, and core/bitmap.cpp,
--     RtlFindLeastSignificantBit and RtlFindMostSignificantBit.
--   Bitmap.State, Ranges, Runs, Find, Longest, ClearRuns, Count: core/bitmap.cpp. ClearRuns has
--     RtlFindClearRuns, which fills an array with runs; State RTL_BITMAP and the
--     operations on one bit and on all; Ranges RtlSetBits and RtlClearBits; Runs the lengths of
--     runs that the searches are made of; Find RtlAreBitsClear, RtlFindClearBits,
--     RtlFindClearBitsAndSet and their counterparts for set bits; Longest the next and the longest
--     run; Count the numbers of bits by a table of bytes.
--   Names.Text, Compress, Compare, FindValue: UNICODE_STRING, and of core/cmname.cpp CmpCopyName,
--     CmpNameSize, CmpCopyCompressedName, CmpCompressedNameSize, CmpCompareCompressedName and
--     CmpFindNameInList; RtlUpcaseUnicodeChar and RtlCompareUnicodeString of core/rtl.cpp.
--   Index.Data, Compare, Leaf, Root, Hash, Number, ByName: include/cmdata.hpp, and of
--     core/cmindex.cpp CmpDoCompareKeyName, CmpCompareInIndex, CmpFindSubKeyInLeaf,
--     CmpFindSubKeyInRoot, CmpComputeHashKey, CmpFindSubKeyByHash, CmpFindSubKeyByNumber and
--     CmpFindSubKeyByName. Cells are read by a function that may fail, as HvGetCell may return
--     NULL.
--   Index.Store, Insert, Split, Remove: CmpAddToLeaf, CmpSplitLeaf and CmpRemoveSubKey of
--     core/cmindex.cpp, on cells that HvReallocateCell of core/hivecell.cpp moves. HvAllocateCell and
--     HvFreeCell are an interface, Allocator, of which nothing is assumed: the theorems are about
--     leaves and roots that stay in their cells, and about allocations that fail.
--   Cells.State, Dirty, FreeIndex, FreeLists, Refs, Bin: core/hivecell.cpp, and HvpAddBin of
--     core/hivebin.cpp in Bin. State has the hive, as far as cells go, and HvpGetCellHeader,
--     HvpGetCellData and HvIsCellAllocated; Dirty HvMarkCellDirty and HvIsCellDirty; FreeIndex
--     HvpComputeFreeListIndex; FreeLists HvpAddFree, HvpRemoveFree and HvpFindFree, on the words
--     that link free cells, by cell index; Refs HvTrackCellRef and HvReleaseFreeCellRefArray, where
--     the cells released are a sequence.
--   Header.Checksum, Verify: HvpHiveHeaderChecksum of core/hivesum.cpp and HvpVerifyHiveHeader of
--     core/hiveinit.cpp, on the base block of Writing.File.
--   Writing.File, Primary, Log, Sync: core/hivewrt.cpp. File has HBASE_BLOCK and the calls of the
--     callbacks FileWrite and FileFlush, whose answers are a function of the calls before and the
--     call. A file is what the calls put into it, where a write that is refused may leave any bytes in
--     its range. Primary has HvpWriteHive; Log HvpWriteLog and
--     HvpTruncateLog; Sync HvSyncHive, HvWriteHive, HvWriteAlternateHive and
--     HvSyncHiveFromRecover. A callback is taken to leave the offset that it is given as it is.
--   Examples: runs at concrete inputs.
-- A child of one of these modules has proofs about it; the other children of Writing do so for its
-- four: the dirty blocks that the loops go through, the calls in order, and the files after them.
--
-- Bounds and fuel. A loop over entries, characters, words or bits is recursion on how many are
-- left. The other loops run on fuel, and have an outcome of their own for running out of it: a pass
-- of a search for clear or set bits has size + 1 rounds, since each moves on by at least one bit;
-- the search for the longest run has as many; a binary search has as many rounds as there are
-- entries, since each narrows the bounds; a walk along a list of free cells has fuel as an
-- argument, more than the list has cells; a bit scan has 32 shifts; skipping the equal words of a
-- run has as many rounds as words are left; a loop over dirty blocks has one round more than the
-- storage has blocks. Sizes of bitmaps are assumed below 2 ^ 31 where a sum
-- would wrap, as the hypotheses say.
--
-- Not modelled: the assertions, which print at most and go on, and the tracing output; releasing a
-- cell that was read, since no hive of this program has a release routine, except where the
-- releases are what the code is about; RtlFindLastBackwardRunClear; allocating
-- cells and freeing them with merging; choosing the leaf that a new subkey goes to, and the operations
-- that change value lists; reading, checking and repairing hive files; security descriptors; the
-- walk along paths; the API and the tools, which are input, output and global state over these
-- parts.
pub mod Base
pub mod Rtl
mod Examples
pub mod Bitmap
pub mod Names
pub mod Index
pub mod Cells
pub mod Header
pub mod Writing
