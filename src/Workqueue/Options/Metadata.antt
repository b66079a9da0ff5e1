-- ===== src/Workqueue/Options/Metadata.antt =====
-- The merge of the metadata options.
use workqueue_modules.Prelude.{
  String, ◌≡◌, refl, ◌∙◌, none, List, [], ◌∷◌, arith, eq_iff, lookup, insert, lookup-insert,
  or_else,
}
use workqueue_modules.Workqueue.Options.{EnqueueOptions, copy, with_metadata}

-- Go maps have one entry for a key.
abbrev pub HasDistinctKeys : List (String × String) → Type 0
HasDistinctKeys [] = Unit {0}
HasDistinctKeys ((k, v) ∷ m) = (lookup k m ≡ none) × HasDistinctKeys m

lookup-copy :
    (dst src : List (String × String)) (k : String)
    → HasDistinctKeys src
    → lookup k (copy dst src) ≡ or_else (lookup k src) (lookup k dst)
unfolding copy lookup
lookup-copy dst [] k d = refl
lookup-copy dst ((j, v) ∷ src) k d =
    lookup-copy (insert j v dst) src k d.1 ∙ ground (arith, eq_iff j k, lookup-insert j k v dst)

-- After `WithMetadata(md)` a key reads as in `md` when `md` has it, and as before otherwise.
pub with_metadata-merge :
    (md : List (String × String)) (o : EnqueueOptions) (k : String)
    → HasDistinctKeys md
    → lookup k (with_metadata md o).metadata ≡ or_else (lookup k md) (lookup k o.metadata)
unfolding with_metadata
with_metadata-merge md o k d = lookup-copy o.metadata md k d
