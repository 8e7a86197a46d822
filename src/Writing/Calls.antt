-- ===== src/Writing/Calls.antt =====
-- core/hivewrt.cpp as sequences of calls: what an operation leaves behind when the calls it makes are
-- known, whether all of them are answered with TRUE or one is not.
use ntreg.Base.{◌≡◌, refl, sym, true, false, List, [], ◌∷◌, ◌++◌, Bool-cases, inl, inr}
use mathlib.Core.Path.{subst}
use mathlib.Core.List.{append_assoc}
use ntreg.Writing.File.{
  BaseBlock, Event, HiveFile, Result, succeeded, failed, stuck, Operation, ◌>>◌, Answers, issue,
  with_base,
}

-- The calls `es` are made after those of a trace.
abbrev pub push : List Event → List Event → List Event
push [] trace = trace
push (e ∷ es) trace = push es (e ∷ trace)

pub push-append : (es fs t : List Event) → push (es ++ fs) t ≡ push fs (push es t)
push-append [] fs t = refl
push-append (e ∷ es) fs t = push-append es fs (e ∷ t)

-- A hive after some calls, with its base block.
abbrev pub after : BaseBlock → List Event → HiveFile → HiveFile
after b es s = record s { base_block = b; trace = push es s.trace }

module _ (accepts : Answers) where
  -- The calls, made after a trace, are all answered with TRUE.
  abbrev pub AreAccepted : (es trace : List Event) → Type 0
  AreAccepted [] trace = Unit
  AreAccepted (e ∷ es) trace = (accepts trace e ≡ true) × AreAccepted es (e ∷ trace)

  AreAccepted-append :
      (es fs trace : List Event)
      → AreAccepted es trace
      → AreAccepted fs (push es trace)
      → AreAccepted (es ++ fs) trace
  AreAccepted-append [] fs trace a b = b
  AreAccepted-append (e ∷ es) fs trace (h, a) b = (h, AreAccepted-append es fs (e ∷ trace) a b)

  pub AreAccepted-split :
      (es fs trace : List Event)
      → AreAccepted (es ++ fs) trace
      → AreAccepted es trace × AreAccepted fs (push es trace)
  AreAccepted-split [] fs trace a = (tt, a)
  AreAccepted-split (e ∷ es) fs trace (h, a) =
      let rest = AreAccepted-split es fs (e ∷ trace) a in ((h, rest.0), rest.1)

  -- The first of the calls that is refused, with those before it.
  pub record Refused (es : List Event) (s t : HiveFile) : Type 0 where
    pub done : List Event
    pub call : Event
    pub rest : List Event
    pub base : BaseBlock
    pub taken : AreAccepted done s.trace
    pub split : es ≡ done ++ call ∷ rest
    pub refused : accepts (push done s.trace) call ≡ false
    pub left : t ≡ after base (done ++ call ∷ []) s

  -- What an operation may return that makes the calls `es` and leaves the base block `b`.
  abbrev pub Made : List Event → BaseBlock → HiveFile → Result → Type 0
  Made es b s (succeeded t) = (t ≡ after b es s) × AreAccepted es s.trace
  Made es b s (failed t) = Refused es s t
  Made es b s stuck = ⊥

  pub Made-then :
      (p q : Operation) (es fs : List Event) (b c : BaseBlock) (s : HiveFile)
      → Made es b s (p s)
      → Made fs c (after b es s) (q (after b es s))
      → Made (es ++ fs) c s ((p >> q) s)
  Made-then p q es fs b c s first second = go (p s) first
    where
      later :
          AreAccepted es s.trace → (r : Result) → Made fs c (after b es s) r → Made (es ++ fs) c s r
      later a (succeeded t) (e, a') = (rw push-append e, AreAccepted-append es fs s.trace a a')
      later a (failed t) f = record {
        done = es ++ f.done;
        call = f.call;
        rest = f.rest;
        base = f.base;
        taken = AreAccepted-append es f.done s.trace a f.taken;
        split = rw f.split (sym (append_assoc es f.done (f.call ∷ f.rest)));
        refused = rw push-append f.refused;
        left = rw (append_assoc, push-append) f.left;
      }
      later a stuck o = o

      go :
          (r : Result)
          → Made es b s r
          → Made (es ++ fs) c s (elim r [ succeeded t ↦ q t | failed t ↦ failed t | stuck ↦ stuck ])
      go (succeeded t) (e, a) = subst (λ t. Made (es ++ fs) c s (q t)) (sym e) (later a _ second)
      go (failed t) f = record {
        done = f.done;
        call = f.call;
        rest = f.rest ++ fs;
        base = f.base;
        taken = f.taken;
        split = rw f.split (append_assoc f.done (f.call ∷ f.rest) fs);
        refused = f.refused;
        left = f.left;
      }
      go stuck o = o

  pub Made-issue :
      (call : Event) (s : HiveFile) → Made (call ∷ []) s.base_block s (issue accepts call s)
  unfolding issue
  Made-issue call s = elim (Bool-cases (accepts s.trace call)) [
    | inl e ↦ rw e (refl, (e, tt))
    | inr f ↦ rw f (record {
      done = [];
      call = call;
      rest = [];
      base = s.base_block;
      taken = tt;
      split = refl;
      refused = f;
      left = refl;
    })
  ]

  pub Made-with_base :
      (change : BaseBlock → BaseBlock) (s : HiveFile)
      → Made [] (change s.base_block) s (with_base change s)
  unfolding with_base
  Made-with_base change s = (refl, tt)
