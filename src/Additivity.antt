-- ===== src/Additivity.antt =====
-- `verify_directory_additivity` of directories/chain.rs in crates/opake-core: the check of an editor's
-- supersede of a directory against the prior listing.
pub mod Exact
mod Examples
use opake.Base.{
  Bool, true, false, not, Option, none, some, List, [], ◌∷◌, Str, ◌==◌, str_eq, contains, keep, map,
  is_empty, Map, get, insert_all, if◌then◌else◌,
}
use opake.Error.{Result, ok, err, ◌>>=◌, chain_additivity_violation}
use opake.Atproto.{parse_at_uri}
use opake.Records.{Directory, ListingEntry}

abbrev pub targets : Directory → List Str
targets d = map (λ e. e.target) d.entries

-- `filter_map` into the set of the URIs that the new targets supersede.
unfoldable pub claimed_by : (Str → Option Str) → List Str → List Str
claimed_by supersedes_of [] = []
claimed_by supersedes_of (t ∷ ts) = elim (supersedes_of t) [
  | none ↦ claimed_by supersedes_of ts
  | some u ↦ u ∷ claimed_by supersedes_of ts
]

-- A set as a list with no repetition.
unfoldable pub dedup : List Str → List Str
dedup [] = []
dedup (x ∷ xs) = let rest = dedup xs in if contains xs x then rest else x ∷ rest

-- The prior targets that are neither kept nor claimed; the source's set has no order.
unfoldable pub missing_entries : (Str → Option Str) → Directory → Directory → List Str
missing_entries supersedes_of prior dir =
    keep (λ t. not (contains (claimed_by supersedes_of (dedup (targets dir))) t))
      (keep (λ t. not (contains (targets dir) t)) (dedup (targets prior)))

module _ (is_manager : Str → Bool) (supersedes_of : Str → Option Str) where
  -- One record of the loop, its prior looked up in the index.
  unfoldable pub check_prior : Str → Directory → Str → Option Directory → Result (Unit {0})
  check_prior uri dir author_did none = ok tt
  check_prior uri dir author_did (some prior) =
      let missing = missing_entries supersedes_of prior dir in
      if is_empty missing then ok tt else err (chain_additivity_violation uri author_did missing)

  unfoldable pub check_record : Map Str Directory → Str → Directory → Result (Unit {0})
  unfolding check_prior
  check_record by_uri uri dir = elim dir.supersedes [
    | none ↦ ok tt
    | some prior_uri ↦ do
      parsed ← parse_at_uri uri
      (if is_manager parsed.authority
          then ok tt
          else check_prior uri dir parsed.authority (get by_uri prior_uri))
  ]

  unfoldable pub check_records : Map Str Directory → List (Str × Directory) → Result (Unit {0})
  check_records by_uri [] = ok tt
  check_records by_uri ((uri, dir) ∷ rest) = do
    done ← check_record by_uri uri dir
    check_records by_uri rest

  unfoldable pub verify_directory_additivity : List (Str × Directory) → Result (Unit {0})
  verify_directory_additivity records = check_records (insert_all [] records) records
