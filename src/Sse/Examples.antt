-- ===== src/Sse/Examples.antt =====
-- Runs of the event stream parser.
use opake.Base.{◌≡◌, refl, true, [], ◌∷◌, ◌++◌, Str, codes, nat_eq}
use opake.Error.{ok}
use opake.Sse.{Decoder, new_accumulator, feed_chunks, feed_bytes, strip_cr}
use opake.Sse.Chunks.{feed_chunks_eq}
use opake.Sse.Frames.{IsLine, wire, feed_bytes-wire}

-- A decoder that keeps the name and the data.
abbrev pairs : Decoder (Str × Str)
pairs = record { from_name_and_data = λ name payload. ok (name, payload); from_utf8_lossy = λ s. s }

feed_chunks_eq_example :
    feed_chunks pairs new_accumulator
      (codes "event: a" ∷ (10 ∷ []) ∷ codes "data: b" ∷ (10 ∷ 10 ∷ []) ∷ [])
    ≡ feed_chunks pairs new_accumulator
        ((codes "event: a" ++ 10 ∷ codes "data: b" ++ 10 ∷ 10 ∷ []) ∷ [])
feed_chunks_eq_example =
    feed_chunks_eq pairs new_accumulator
      (codes "event: a" ∷ (10 ∷ []) ∷ codes "data: b" ∷ (10 ∷ 10 ∷ []) ∷ [])
      ((codes "event: a" ++ 10 ∷ codes "data: b" ++ 10 ∷ 10 ∷ []) ∷ []) refl refl

chunk-IsLine : IsLine (codes "chunk")
unfolding strip_cr
chunk-IsLine = record { no_newline = refl; no_cr = refl }

payload-IsLine : IsLine (codes "x: 1")
unfolding strip_cr
payload-IsLine = record { no_newline = refl; no_cr = refl }

feed_bytes-wire_example :
    feed_bytes pairs new_accumulator (wire true (codes "chunk") (codes "x: 1"))
    ≡ (ok (codes "chunk", codes "x: 1") ∷ [], new_accumulator)
feed_bytes-wire_example =
    feed_bytes-wire pairs true (codes "chunk") (codes "x: 1") chunk-IsLine payload-IsLine
