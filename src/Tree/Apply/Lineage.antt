-- ===== src/Tree/Apply/Lineage.antt =====
-- The root after `apply_directory_delta` of directories/tree.rs, and the lineage of the record.
use opake.Base.{
  ◌≡◌, ◌∙◌, false, ◌&&◌, ◌||◌, not, Option, some, Str, ◌==◌, str_eq, str_beq_iff, option_eq,
  is_some, arith, if◌then◌else◌,
}
use opake.Records.{Directory}
use opake.Tree.{DirectoryInfo, DirectoryTree, has_self_rkey, info_of}
use opake.Tree.Roots.{edge_counts, is_successor, current_anchor}
use opake.Tree.Apply.{
  make_root, advance_root, adopt_root, delta_info, insert_record, apply_directory_delta,
}

module _ (decrypt : Str → DirectoryInfo → Option Str) (t : DirectoryTree) (uri : Str)
    (dir : Directory) where
  -- After a record delta the root is the record's URI if the record supersedes the root, or if no
  -- root is set and the record is flagged or at rkey self; otherwise it is the root before.
  pub apply_directory_delta-root : (apply_directory_delta decrypt t uri dir).0.root_uri ≡ (
      if (is_some dir.supersedes && t.root_uri == dir.supersedes)
        || (not (is_some t.root_uri) && (dir.is_workspace_root || has_self_rkey uri))
      then some uri
      else t.root_uri)
  unfolding apply_directory_delta advance_root adopt_root make_root insert_record delta_info info_of
  apply_directory_delta-root = ground arith

  -- A record that names the root as its predecessor becomes the root even if its lineage makes the
  -- edge rule of the snapshot refuse the edge; the forward walk from the root does not count it as
  -- a successor.
  pub delta_ignores_lineage :
      (root : Str)
      → t.root_uri ≡ some root
      → dir.supersedes ≡ some root
      → edge_counts t.directories uri (info_of dir) root ≡ false
      → ((apply_directory_delta decrypt t uri dir).0.root_uri ≡ some uri)
        × (is_successor t.directories root (uri, info_of dir) ≡ false)
  delta_ignores_lineage root r s e = (
    apply_directory_delta-root ∙ ground (arith, r, s, str_beq_iff root root),
    unfold edge_counts is_successor current_anchor in ground (arith, e),
  )
