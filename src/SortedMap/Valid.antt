-- ===== src/SortedMap/Valid.antt =====
-- The invariant of a sorted map: its nodes form a red-black tree of its size, with a black root, and
-- their keys ascend.
use python_ctools.Base.{◌≡◌, false}
use python_ctools.SortedMap.{Order, SortedMap}
use python_ctools.SortedMap.Sorted.{Ascending}
use python_ctools.SortedMap.Tree.{Tree, top, red_root, entries, count, Located}
use python_ctools.SortedMap.Tree.Balance.{Balanced}

module _ {ℓ} {K V : Type ℓ} where
  pub record Valid (compare : K → K → Order) (tree : SortedMap K V) (t : Tree K V) : Type ℓ where
    pub located : Located tree top t
    pub balanced : Balanced t
    pub black : red_root t ≡ false
    pub sized : tree.size ≡ count t
    pub ascending : Ascending compare (entries t)
