-- ===== src/Sse/Frames.antt =====
-- Frames of indexer/sse/parser.rs as a server writes them.
use opake.Base.{
  ℕ, ◌≡◌, ◌≢◌, refl, ap, Bool, true, false, some, [], ◌∷◌, ◌++◌, Str, codes, arith, contains,
  nat_eq, ◌==◌, str_beq, Option, not, ◌&&◌, all,
}
use opake.Sse.{
  Decoder, FrameBuffer, new_accumulator, new_frame, push, end_line, scan, feed_bytes, strip_cr,
  strip_space, split_field, starts_with_colon, feed_line, emit, flush_frame, apply_field,
}
use opake.Sse.Chunks.{scan-append_line}

abbrev pub eol : Bool → Str
eol false = b'\n' ∷ []
eol true = b'\r' ∷ b'\n' ∷ []

-- An event with one line of data, as a server writes it.
abbrev pub wire : Bool → Str → Str → Str
wire crlf name payload =
    (codes "event: " ++ name)
    ++ (eol crlf ++ ((codes "data: " ++ payload) ++ (eol crlf ++ ([] ++ (eol crlf ++ [])))))

-- A line that stands for itself: no newline in it, no carriage return at its end.
pub record IsLine (l : Str) : Type 0 where
  pub no_newline : contains l b'\n' ≡ false
  pub no_cr : strip_cr l ≡ l

strip_cr-append : (l : Str) → strip_cr l ≡ l → strip_cr (l ++ b'\r' ∷ []) ≡ l
unfolding strip_cr
strip_cr-append [] h = refl
strip_cr-append (c ∷ []) h = refl
strip_cr-append (c ∷ x ∷ s) h = ap (λ t. c ∷ t) (strip_cr-append (x ∷ s) (cc h))

IsLine-cons : (c : ℕ) {l : Str} → c ≢ b'\n' → c ≢ b'\r' → IsLine l → IsLine (c ∷ l)
unfolding strip_cr
IsLine-cons c {l = []} p q h = record { no_newline = ground arith; no_cr = ground arith }
IsLine-cons c {l = x ∷ s} p q h = record {
  no_newline = ground (arith, h.no_newline);
  no_cr = ap (λ t. c ∷ t) h.no_cr;
}

abbrev plain : ℕ → Bool
plain c = not (c == b'\n') && not (c == b'\r')

IsLine-append : (p : Str) {l : Str} → all plain p ≡ true → IsLine l → IsLine (p ++ l)
IsLine-append [] e h = h
IsLine-append (c ∷ p) e h =
    IsLine-cons c (ground arith) (ground arith) (IsLine-append p (ground arith) h)

module _ {Event : Type 0} (d : Decoder Event) where
  scan_line :
      (crlf : Bool) (b : FrameBuffer) (l rest : Str)
      → IsLine l
      → scan d b [] (l ++ (eol crlf ++ rest)) ≡ (
          let (r, b') = feed_line d b l in
          let (events, b'', line) = scan d b' [] rest in (push r events, b'', line))
  unfolding scan end_line push
  scan_line false b l rest h = rw (scan-append_line d b [] l (b'\n' ∷ rest) h.no_newline, h.no_cr)
  scan_line true b l rest h =
      rw (scan-append_line d b [] l (b'\r' ∷ b'\n' ∷ rest) h.no_newline, strip_cr-append l h.no_cr)

  feed_event :
      (b : FrameBuffer) (name : Str)
      → feed_line d b (codes "event: " ++ name)
        ≡ (Option.none, record b { event = some (d.from_utf8_lossy name) })
  unfolding feed_line starts_with_colon split_field strip_space apply_field str_beq
  feed_event b name = refl

  feed_data :
      (b : FrameBuffer) (payload : Str)
      → b.payload ≡ []
      → feed_line d b (codes "data: " ++ payload) ≡ (Option.none, record b { payload = payload })
  unfolding feed_line starts_with_colon split_field strip_space apply_field str_beq
  feed_data b payload h = rw h refl

  flush_full :
      (name payload : Str)
      → feed_line d (record { event = some name; payload = payload }) []
        ≡ (some (d.from_name_and_data name payload), new_frame)
  unfolding feed_line flush_frame emit
  flush_full name payload = refl

  -- An event of one name and one line of data, written with either line ending, is read back as
  -- that event and leaves a fresh accumulator; name and data hold no newline and do not end in a
  -- carriage return.
  pub feed_bytes-wire :
      (crlf : Bool) (name payload : Str)
      → IsLine name
      → IsLine payload
      → feed_bytes d new_accumulator (wire crlf name payload)
        ≡ (d.from_name_and_data (d.from_utf8_lossy name) payload ∷ [], new_accumulator)
  feed_bytes-wire crlf name payload hn hp =
      unfold feed_bytes in
      rw
        (
          scan_line crlf new_frame (codes "event: " ++ name) _
              (IsLine-append (codes "event: ") refl hn),
          feed_event new_frame name,
          scan_line crlf (record new_frame { event = some (d.from_utf8_lossy name) })
              (codes "data: " ++ payload) _ (IsLine-append (codes "data: ") refl hp),
          feed_data (record new_frame { event = some (d.from_utf8_lossy name) }) payload refl,
          scan_line crlf (record { event = some (d.from_utf8_lossy name); payload = payload }) [] []
              (record { no_newline = refl; no_cr = unfold strip_cr in refl }),
          flush_full (d.from_utf8_lossy name) payload,
        )
        (unfold scan push in refl)
