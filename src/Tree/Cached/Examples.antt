-- ===== src/Tree/Cached/Examples.antt =====
-- A delta that deletes and upserts one URI.
use opake.Base.{none, some, List, [], ◌∷◌, codes}
use opake.Records.{Directory}
use opake.Events.{IndexerEnvelope}
use opake.Tree.Fixtures.{album, nested, record_of}
use opake.Tree.Cached.{CachedRecord, with_delta}
use opake.Tree.Cached.Lookup.{cached, Answers, with_delta_exact}

abbrev envelopes : List (IndexerEnvelope Directory)
envelopes =
    record { uri = album; body = record_of none none []; indexed_at = []; deleted_at = none }
    ∷ record {
      uri = album;
      body = record_of none none [];
      indexed_at = [];
      deleted_at = some (codes "now");
    }
    ∷ []

abbrev stored : List (CachedRecord Directory)
stored = record { uri = nested; cid = codes "c"; value = record_of none none [] } ∷ []

with_delta_exact_example :
    Answers some stored envelopes album (cached (with_delta some stored envelopes) album)
with_delta_exact_example = with_delta_exact some stored envelopes album
