-- ===== src/Sse/Chunks.antt =====
-- The line accumulator of indexer/sse/parser.rs, and how its input is cut into chunks.
use mathlib.Core.List.{append_assoc, append-nil}
use opake.Base.{
  ℕ, ◌≡◌, refl, sym, ap, ◌∙◌, Bool, true, false, ◌||◌, Option, none, some, List, [], ◌∷◌, ◌++◌, Str,
  ◌==◌, arith, Bool-cases, inl, inr, nat_eq, contains, if◌then◌else◌,
}
use opake.Error.{Result}
use opake.Sse.{Decoder, FrameBuffer, LineAccumulator, push, end_line, scan, feed_bytes, feed_chunks}

push-append {ℓ} : {A : Type ℓ} (r : Option A) (es fs : List A) → push r (es ++ fs) ≡ push r es ++ fs
unfolding push
push-append none es fs = refl
push-append (some e) es fs = refl

abbrev pub concat : List Str → Str
concat [] = []
concat (s ∷ ss) = s ++ concat ss

contains-append :
    (xs : Str) (c : ℕ)
    → contains xs b'\n' ≡ false
    → (c == b'\n') ≡ false
    → contains (xs ++ c ∷ []) b'\n' ≡ false
contains-append [] c h k = ground arith
contains-append (x ∷ xs) c h k = ground (arith, contains-append xs c)

or_false : (a b : Bool) → (a || b) ≡ false → (a ≡ false) × (b ≡ false)
or_false a b h = ground arith

module _ {Event : Type 0} (d : Decoder Event) where
  abbrev after_line :
      List (Result Event)
      → List (Result Event) × FrameBuffer × Str
      → List (Result Event) × FrameBuffer × Str
  after_line events (more, b, line) = (events ++ more, b, line)

  scan-append :
      (b : FrameBuffer) (line xs ys : Str)
      → scan d b line (xs ++ ys)
        ≡ after_line (scan d b line xs).0 (scan d (scan d b line xs).1 (scan d b line xs).2 ys)
  unfolding scan
  scan-append b line [] ys = refl
  scan-append b line (c ∷ xs) ys = rw (
    scan-append (end_line d b line (c == b'\n')).1 (if c == b'\n' then [] else line ++ c ∷ []) xs
        ys,
    push-append,
  )

  -- Bytes with no newline only make the current line longer.
  pub scan-append_line :
      (b : FrameBuffer) (line xs ys : Str)
      → contains xs b'\n' ≡ false
      → scan d b line (xs ++ ys) ≡ scan d b (line ++ xs) ys
  unfolding scan end_line push
  scan-append_line b line [] ys h = rw append-nil
  scan-append_line b line (c ∷ xs) ys h =
      let (e, rest) = or_false (c == b'\n') (contains xs b'\n') h in
      rw e (
        scan-append_line b (line ++ c ∷ []) xs ys rest
        ∙ ap (λ l. scan d b l ys) (append_assoc line (c ∷ []) xs))

  -- The line that is left over holds no newline.
  pub contains-scan :
      (b : FrameBuffer) (line xs : Str)
      → contains line b'\n' ≡ false
      → contains (scan d b line xs).2 b'\n' ≡ false
  unfolding scan end_line
  contains-scan b line [] h = h
  contains-scan b line (c ∷ xs) h = elim (Bool-cases (c == b'\n')) [
    | inl e ↦ rw e (contains-scan (end_line d b line true).1 [] xs refl)
    | inr e ↦ rw e (contains-scan b (line ++ c ∷ []) xs (contains-append line c h e))
  ]

  -- Feeding two chunks one after the other emits the events, and leaves the accumulator, that
  -- feeding their concatenation does.
  pub feed_bytes-append :
      (a : LineAccumulator) (xs ys : Str)
      → feed_bytes d a (xs ++ ys) ≡ (
          let (events, a') = feed_bytes d a xs in
          let (more, a'') = feed_bytes d a' ys in (events ++ more, a''))
  unfolding feed_bytes
  feed_bytes-append a xs ys =
      let (events, b, line) = scan d a.frame [] (a.carry ++ xs) in
      rw (← append_assoc a.carry xs ys, scan-append a.frame [] (a.carry ++ xs) ys)
        (rw (← scan-append_line b [] line ys (contains-scan a.frame [] (a.carry ++ xs) refl)) refl)

  feed_bytes-nil :
      (a : LineAccumulator) → contains a.carry b'\n' ≡ false → feed_bytes d a [] ≡ ([], a)
  unfolding feed_bytes scan
  feed_bytes-nil a h = rw (scan-append_line a.frame [] a.carry [] h)

  contains-feed_bytes :
      (a : LineAccumulator) (xs : Str) → contains (feed_bytes d a xs).1.carry b'\n' ≡ false
  unfolding feed_bytes
  contains-feed_bytes a xs = contains-scan a.frame [] (a.carry ++ xs) refl

  -- From an accumulator whose carry holds no newline, as every call leaves it, feeding chunks one
  -- by one is feeding their concatenation.
  feed_chunks-concat :
      (a : LineAccumulator) (chunks : List Str)
      → contains a.carry b'\n' ≡ false
      → feed_chunks d a chunks ≡ feed_bytes d a (concat chunks)
  unfolding feed_chunks
  feed_chunks-concat a [] h = sym (feed_bytes-nil a h)
  feed_chunks-concat a (c ∷ cs) h = rw (
    feed_bytes-append a c (concat cs),
    feed_chunks-concat (feed_bytes d a c).1 cs (contains-feed_bytes a c),
  )

  -- Two ways to cut one byte stream into chunks give the same events and leave the same
  -- accumulator, from any accumulator whose carried line holds no newline.
  pub feed_chunks_eq :
      (a : LineAccumulator) (chunks chunks' : List Str)
      → contains a.carry b'\n' ≡ false
      → concat chunks ≡ concat chunks'
      → feed_chunks d a chunks ≡ feed_chunks d a chunks'
  feed_chunks_eq a chunks chunks' h e =
      feed_chunks-concat a chunks h ∙ ap (feed_bytes d a) e ∙ sym (feed_chunks-concat a chunks' h)
