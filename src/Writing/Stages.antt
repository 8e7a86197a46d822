-- ===== src/Writing/Stages.antt =====
-- The steps of `HvSyncHive` of core/hivewrt.cpp: the log, and the primary file.
use ntreg.Base.{
  ℕ, ◌+◌, ◌*◌, ◌<◌, ◌≡◌, ◌≢◌, refl, sym, inl, inr, ◌⊎◌, Bool, true, false, ◌==◌, if◌then◌else◌,
  List, arith, Bool-cases, ◌∙◌,
}
use mathlib.Core.Path.{subst}
use ntreg.Base.Word.{Word}
use ntreg.Bitmap.State.{test_bit}
use ntreg.Cells.State.{Hive}
use ntreg.Writing.File.{
  Event, HiveFile, Result, succeeded, failed, stuck, Operation, ◌>>◌, Answers, block_bytes,
  primary_file, log_file, alternate_file,
}
use ntreg.Writing.Primary.{write_hive}
use ntreg.Writing.Log.{log_buffer_size, write_log}
use ntreg.Writing.Blocks.{IsTracked, dirty_blocks}
use ntreg.Writing.Calls.{Made}
use ntreg.Writing.Order.{log_transaction, ended, write_log-Made}
use ntreg.Writing.Contents.{Disk, contents, contents-other, log_calls-AreFor}
use ntreg.Writing.Durable.{
  IsMatching, ended-IsMatching, LastRefused, Refused-LastRefused, Written, WriteOutcome,
  write_hive-Written,
}

module _ (accepts : Answers) (disk : Disk) where
  -- A file has all blocks as they are in memory.
  abbrev pub Mirrors : Hive → (memory : ℕ → Word) → (file : ℕ) → List Event → Type 0
  Mirrors h memory file trace =
      (i k : ℕ)
      → i < h.stable_storage.length
      → k < 4096
      → contents accepts disk file trace ((i + 1) * 4096 + k)
        ≡ memory (h.stable_storage.block_address i + k)

  -- It has those that are not dirty.
  abbrev pub MirrorsClean : Hive → (memory : ℕ → Word) → (file : ℕ) → List Event → Type 0
  MirrorsClean h memory file trace =
      (i k : ℕ)
      → i < h.stable_storage.length
      → k < 4096
      → test_bit h.dirty_vector i ≡ false
      → contents accepts disk file trace ((i + 1) * 4096 + k)
        ≡ memory (h.stable_storage.block_address i + k)

  pub Written-Mirrors :
      (file : ℕ) (s t : HiveFile)
      → MirrorsClean s.hive s.memory file s.trace
      → Written accepts disk file s t
      → Mirrors s.hive s.memory file t.trace
  Written-Mirrors file s t held w i k inside small =
      w.blocks i k inside small ∙ go (test_bit s.hive.dirty_vector i) (held i k inside small)
    where
      go :
          (b : Bool)
          → (b ≡ false
              → contents accepts disk file s.trace ((i + 1) * 4096 + k) ≡ block_bytes s i k)
          → (if b
              then block_bytes s i k
              else contents accepts disk file s.trace ((i + 1) * 4096 + k))
            ≡ block_bytes s i k
      go true h = refl
      go false h = h refl

  module _ (allocates : ℕ → Bool) (s : HiveFile) where
    -- Why a sync fails: the sequence numbers differed before it, there was no memory for the log, or
    -- the latest call was refused.
    abbrev pub Reason : HiveFile → Type 0
    Reason t =
        ¬ IsMatching s.base_block
        ⊎ ((allocates (log_buffer_size s.hive) ≡ false) ⊎ LastRefused accepts t)

    abbrev pub Kept : HiveFile → Type 0
    Kept t = (t.hive ≡ s.hive) × (t.memory ≡ s.memory)

    -- A hive between the log and the primary file.
    pub record Logged (t : HiveFile) : Type 0 where
      pub kept : Kept t
      pub alternate : t.alternate ≡ s.alternate
      pub origin : ¬ IsMatching t.base_block → ¬ IsMatching s.base_block
      pub files :
          (file p : ℕ)
          → file ≢ log_file
          → contents accepts disk file t.trace p ≡ contents accepts disk file s.trace p

    -- An operation that succeeds as `P` says or fails for a reason, with the hive as it was.
    abbrev pub Out : (HiveFile → Type 0) → Result → Type 0
    Out P (succeeded t) = P t
    Out P (failed t) = Kept t × Reason t
    Out P stuck = ⊥

    pub Out-then :
        (P Q : HiveFile → Type 0) (p q : Operation) (t : HiveFile)
        → Out P (p t)
        → ((u : HiveFile) → P u → Out Q (q u))
        → Out Q ((p >> q) t)
    Out-then P Q p q t o more = go (p t) o
      where
        go :
            (r : Result)
            → Out P r
            → Out Q (elim r [ succeeded u ↦ q u | failed u ↦ failed u | stuck ↦ stuck ])
        go (succeeded u) h = more u h
        go (failed u) h = h
        go stuck o = o

    pub Out-if :
        (P : HiveFile → Type 0) (b : Bool) (x y : Result)
        → (b ≡ true → Out P x)
        → (b ≡ false → Out P y)
        → Out P (if b then x else y)
    Out-if P true x y hx hy = hx refl
    Out-if P false x y hx hy = hy refl

    pub write_log-Logged : IsTracked s.hive → Out Logged (write_log accepts allocates s)
    unfolding write_log
    write_log-Logged tracked =
        elim (Bool-cases (s.base_block.sequence1 == s.base_block.sequence2)) [
          | inr differ ↦ rw differ ((refl, refl), inl (λ e. ground arith))
          | inl same ↦
              let m : IsMatching s.base_block = ground arith in
              elim (Bool-cases (allocates (log_buffer_size s.hive))) [
                | inr refused ↦ rw (same, refused) ((refl, refl), inr (inl refused))
                | inl memory ↦ go m _ (write_log-Made accepts allocates s tracked m memory)
              ]
        ]
      where
        go :
            IsMatching s.base_block
            → (r : Result) → Made accepts (log_transaction s) (ended log_file s) s r
            → Out Logged r
        go m (succeeded t) (e, all) = subst Logged (sym e) (record {
          kept = (refl, refl);
          alternate = refl;
          origin = λ differ. absurd (differ (ended-IsMatching log_file s m));
          files = λ file p apart.
              contents-other accepts disk file log_file (log_transaction s) s.trace p apart
                (refl, log_calls-AreFor s _ (dirty_blocks s.hive) _ (refl, (refl, (refl, tt))));
        })
        go m (failed t) r =
            let l = Refused-LastRefused accepts (log_transaction s) s t r in
            ((l.0, l.1), inr (inr l.2))
        go m stuck o = o

    pub record Saved (t : HiveFile) : Type 0 where
      pub kept : Kept t
      pub alternate : t.alternate ≡ s.alternate
      pub matching : IsMatching t.base_block
      pub mirrors : Mirrors s.hive s.memory primary_file t.trace
      pub copy :
          (p : ℕ)
          → contents accepts disk alternate_file t.trace p
            ≡ contents accepts disk alternate_file s.trace p

    pub write_hive-Saved :
        IsTracked s.hive
        → MirrorsClean s.hive s.memory primary_file s.trace
        → (t : HiveFile) → Logged t
        → Out Saved (write_hive accepts true primary_file t)
    write_hive-Saved tracked held t l =
        go _
          (write_hive-Written accepts disk primary_file t (subst IsTracked (sym l.kept.0) tracked))
      where
        held_there : MirrorsClean t.hive t.memory primary_file t.trace
        held_there =
            rw (l.kept.0, l.kept.1)
              (λ i k inside small clean.
                l.files primary_file _ (λ e. omega arith) ∙ held i k inside small clean)

        go : (r : Result) → WriteOutcome accepts disk primary_file t r → Out Saved r
        go (succeeded u) w = record {
          kept = (w.same_hive ∙ l.kept.0, w.same_memory ∙ l.kept.1);
          alternate = w.same_alternate ∙ l.alternate;
          matching = w.matching;
          mirrors = rw (sym l.kept.0, sym l.kept.1) (Written-Mirrors primary_file t u held_there w);
          copy = λ p.
              w.others alternate_file p (λ e. omega arith)
              ∙ l.files alternate_file p (λ e. omega arith);
        }
        go (failed u) (e, f, _, inl (differ, same)) =
            ((e ∙ l.kept.0, f ∙ l.kept.1), inl (l.origin differ))
        go (failed u) (e, f, _, inr refused) = ((e ∙ l.kept.0, f ∙ l.kept.1), inr (inr refused))
        go stuck o = o
