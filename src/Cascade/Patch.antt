-- ===== src/Cascade/Patch.antt =====
-- `patch_child_pointer` of directories/cascade.rs, outcome by outcome.
use opake.Base.{
  ◌≡◌, refl, ap, Bool, true, false, none, some, List, [], ◌∷◌, ◌++◌, Str, ◌==◌, str_eq, str_beq_iff,
  any, arith, Bool-cases, Option-cases, inl, inr, Elem,
}
use opake.Error.{Result, ok, err}
use opake.Records.{ListingEntry, new_entry}
use opake.Cascade.{ChainHead, AncestorLinkage, replace, add, replace_entry, patch_child_pointer}

abbrev pub lists : Str → List ListingEntry → Bool
lists uri = any (λ e. e.target == uri)

-- `entries'` is `entries` with its first entry for `prior` replaced by the link.
pub record IsReplaced (entries : List ListingEntry) (prior : Str) (link : ChainHead)
    (entries' : List ListingEntry) : Type 0 where
  pub before : List ListingEntry
  pub old : ListingEntry
  pub after : List ListingEntry
  pub was : entries ≡ before ++ old ∷ after
  pub target : old.target ≡ prior
  pub first : lists prior before ≡ false
  pub is : entries' ≡ before ++ new_entry link.uri link.cid ∷ after

replace_entry-IsReplaced :
    (es : List ListingEntry) (prior : Str) (link : ChainHead) (es' : List ListingEntry)
    → replace_entry es prior link ≡ some es'
    → IsReplaced es prior link es'
unfolding replace_entry
replace_entry-IsReplaced [] prior link es' h = cc h
replace_entry-IsReplaced (e ∷ es) prior link es' h = elim (Bool-cases (e.target == prior)) [
  | inl q ↦ record {
    before = [];
    old = e;
    after = es;
    was = refl;
    target = (str_beq_iff e.target prior).0 q;
    first = refl;
    is = ground (arith, q);
  }
  | inr q ↦ elim (Option-cases (replace_entry es prior link)) [
    | inl n ↦ absurd (ground (arith, q))
    | inr (r, n) ↦
        let ih = replace_entry-IsReplaced es prior link r n in
        record {
          before = e ∷ ih.before;
          old = ih.old;
          after = ih.after;
          was = ap (λ t. e ∷ t) ih.was;
          target = ih.target;
          first = ground (arith, q, ih.first);
          is = ground (arith, q, ih.is);
        }
  ]
]

replace_entry-none :
    (es : List ListingEntry) (prior : Str) (link : ChainHead)
    → replace_entry es prior link ≡ none
    → lists prior es ≡ false
unfolding replace_entry
replace_entry-none [] prior link h = refl
replace_entry-none (e ∷ es) prior link h = elim (Option-cases (replace_entry es prior link)) [
  | inl n ↦ ground (arith, replace_entry-none es prior link n)
  | inr (r, n) ↦ absurd (ground arith)
]

-- What each outcome of a patch says of the listing.
abbrev pub Patched :
    List ListingEntry → AncestorLinkage → ChainHead → Result (List ListingEntry) → Type 0
Patched entries (replace prior) link (ok entries') = IsReplaced entries prior link entries'
Patched entries (replace prior) link (err e) = lists prior entries ≡ false
Patched entries add link (ok entries') =
    (lists link.uri entries ≡ false) × (entries' ≡ entries ++ new_entry link.uri link.cid ∷ [])
Patched entries add link (err e) = lists link.uri entries ≡ true

-- A replace overwrites the first entry for the prior child and keeps the others in place, and
-- fails only if there is none; an add appends the child and fails only if it is listed already.
pub patch_child_pointer-Patched :
    (entries : List ListingEntry) (linkage : AncestorLinkage) (link : ChainHead)
    → Patched entries linkage link (patch_child_pointer entries linkage link)
unfolding patch_child_pointer
patch_child_pointer-Patched entries (replace prior) link =
    elim (Option-cases (replace_entry entries prior link)) [
      | inl e ↦ rw (e, Patched) (replace_entry-none entries prior link e)
      | inr (r, e) ↦ rw (e, Patched) (replace_entry-IsReplaced entries prior link r e)
    ]
patch_child_pointer-Patched entries add link = elim (Bool-cases (lists link.uri entries)) [
  | inl e ↦ rw e e
  | inr e ↦ rw e (e, refl)
]

Elem-append : {A : Type 0} (a : A) (xs ys : List A) → Elem a (xs ++ a ∷ ys)
Elem-append a [] ys = inl refl
Elem-append a (x ∷ xs) ys = inr (Elem-append a xs ys)

-- After a successful patch the listing holds the child's new head.
pub patch_child_pointer-Elem :
    (entries : List ListingEntry) (linkage : AncestorLinkage) (link : ChainHead)
    (entries' : List ListingEntry)
    → patch_child_pointer entries linkage link ≡ ok entries'
    → Elem (new_entry link.uri link.cid) entries'
patch_child_pointer-Elem entries (replace prior) link entries' h =
    let p : IsReplaced entries prior link entries' =
      rw h at (patch_child_pointer-Patched entries (replace prior) link) in
    rw p.is (Elem-append _ p.before p.after)
patch_child_pointer-Elem entries add link entries' h =
    let p : (lists link.uri entries ≡ false)
        × (entries' ≡ entries ++ new_entry link.uri link.cid ∷ []) =
      rw h at (patch_child_pointer-Patched entries add link) in
    rw p.1 (Elem-append _ entries [])
