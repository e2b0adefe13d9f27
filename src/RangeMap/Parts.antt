-- ===== src/RangeMap/Parts.antt =====
-- The operations of the ordered map on a range map taken apart before a segment: an entry lies past
-- what stands before it, and short of what stands behind it.
use mankoros.Base.{
  ℕ, ◌≤◌, ◌<◌, ◌≡◌, refl, ap, none, some, [], ◌∷◌, ◌++◌, ltb, max, arith, ◌⊎◌, inl, inr, Bool-cases,
}
use mankoros.BTreeMap
use mankoros.RangeMap.Defs.{Node, RangeMap}
use mankoros.RangeMap.View.{IsOrdered, IsWithin, le-IsWithin}

module _ {ℓ} {V : Type ℓ} where
  pub get-append :
      (lo hi : ℕ) (m n : RangeMap V) (k : ℕ)
      → IsWithin lo m hi
      → hi ≤ k
      → BTreeMap.get k (m ++ n) ≡ BTreeMap.get k n
  unfolding BTreeMap.get
  get-append lo hi [] n k w h = refl
  get-append lo hi ((a, node) ∷ m) n k w h =
      ground (arith, le-IsWithin node.end hi m w.2, get-append node.end hi m n k w.2 h)

  pub get_before :
      (lo : ℕ) (m : RangeMap V) (k : ℕ) → IsOrdered lo m → k < lo → BTreeMap.get k m ≡ none
  unfolding BTreeMap.get
  get_before lo [] k o h = refl
  get_before lo ((a, node) ∷ m) k o h = ground (arith, get_before node.end m k o.2)

  pub insert-append :
      (lo hi : ℕ) (m n : RangeMap V) (k : ℕ) (v : Node V)
      → IsWithin lo m hi
      → hi ≤ k
      → BTreeMap.insert k v (m ++ n) ≡ m ++ BTreeMap.insert k v n
  unfolding BTreeMap.insert
  insert-append lo hi [] n k v w h = refl
  insert-append lo hi ((a, node) ∷ m) n k v w h =
      ground (arith, le-IsWithin node.end hi m w.2, insert-append node.end hi m n k v w.2 h)

  pub insert_before :
      (lo : ℕ) (m : RangeMap V) (k : ℕ) (v : Node V)
      → IsOrdered lo m
      → k < lo
      → BTreeMap.insert k v m ≡ (k, v) ∷ m
  unfolding BTreeMap.insert
  insert_before lo [] k v o h = refl
  insert_before lo ((a, node) ∷ m) k v o h = ground arith

  -- a fresh key goes between the two parts
  pub try_insert_between :
      (lo hi hi' : ℕ) (m n : RangeMap V) (k : ℕ) (v : Node V)
      → IsWithin lo m hi
      → IsOrdered hi' n
      → hi ≤ k
      → k < hi'
      → BTreeMap.try_insert k v (m ++ n) ≡ some (m ++ (k, v) ∷ n)
  unfolding BTreeMap.try_insert
  try_insert_between lo hi hi' m n k v w o h h' = ground (
    arith,
    get-append lo hi m n k w h,
    get_before hi' n k o h',
    insert-append lo hi m n k v w h,
    insert_before hi' n k v o h',
  )

  -- a fresh key goes behind the segment before it
  pub try_insert_behind :
      (lo hi a k : ℕ) (m n : RangeMap V) (u v : Node V)
      → IsWithin lo m a
      → a < u.end
      → u.end ≤ k
      → IsOrdered hi n
      → k < hi
      → BTreeMap.try_insert k v (m ++ (a, u) ∷ n) ≡ some (m ++ (a, u) ∷ (k, v) ∷ n)
  unfolding BTreeMap.try_insert BTreeMap.get BTreeMap.insert
  try_insert_behind lo hi a k m n u v w ne h o h' = ground (
    arith,
    get-append lo a m ((a, u) ∷ n) k w,
    get_before hi n k o h',
    insert-append lo a m ((a, u) ∷ n) k v w,
    insert_before hi n k v o h',
  )

  pub put-append :
      (lo hi : ℕ) (m n : RangeMap V) (k : ℕ) (v v' : Node V)
      → IsWithin lo m hi
      → hi ≤ k
      → BTreeMap.put k v' (m ++ (k, v) ∷ n) ≡ m ++ (k, v') ∷ n
  unfolding BTreeMap.put
  put-append lo hi [] n k v v' w h = ground arith
  put-append lo hi ((a, node) ∷ m) n k v v' w h =
      ground (arith, le-IsWithin node.end hi m w.2, put-append node.end hi m n k v v' w.2 h)

  pub erase-append :
      (lo hi : ℕ) (m n : RangeMap V) (k : ℕ) (v : Node V)
      → IsWithin lo m hi
      → hi ≤ k
      → BTreeMap.erase k (m ++ (k, v) ∷ n) ≡ m ++ n
  unfolding BTreeMap.erase
  erase-append lo hi [] n k v w h = ground arith
  erase-append lo hi ((a, node) ∷ m) n k v w h =
      ground (arith, le-IsWithin node.end hi m w.2, erase-append node.end hi m n k v w.2 h)

  pub erase-append_tail :
      (lo hi : ℕ) (m n : RangeMap V) (k : ℕ)
      → IsWithin lo m hi
      → hi ≤ k
      → BTreeMap.erase k (m ++ n) ≡ m ++ BTreeMap.erase k n
  unfolding BTreeMap.erase
  erase-append_tail lo hi [] n k w h = refl
  erase-append_tail lo hi ((a, node) ∷ m) n k w h =
      ground (arith, le-IsWithin node.end hi m w.2, erase-append_tail node.end hi m n k w.2 h)

  pub get_at :
      (lo hi : ℕ) (m n : RangeMap V) (k : ℕ) (v : Node V)
      → IsWithin lo m hi
      → hi ≤ k
      → BTreeMap.get k (m ++ (k, v) ∷ n) ≡ some v
  unfolding BTreeMap.get
  get_at lo hi m n k v w h = rw (get-append lo hi m ((k, v) ∷ n) k w h) (ground arith)

  pub remove_at :
      (lo hi : ℕ) (m n : RangeMap V) (k : ℕ) (v : Node V)
      → IsWithin lo m hi
      → hi ≤ k
      → BTreeMap.remove k (m ++ (k, v) ∷ n) ≡ some (v, m ++ n)
  unfolding BTreeMap.remove
  remove_at lo hi m n k v w h =
      ground (arith, get_at lo hi m n k v w h, erase-append lo hi m n k v w h)

  -- A range map at an address: every segment starts there or later, or the last one that starts
  -- before it has a part of the map on either side.
  pub record Found (lo k : ℕ) (m : RangeMap V) : Type ℓ where
    pub pre : RangeMap V
    pub start : ℕ
    pub node : Node V
    pub post : RangeMap V
    pub whole : m ≡ pre ++ (start, node) ∷ post
    pub pre_within : IsWithin lo pre start
    pub nonempty : start < node.end
    pub post_ordered : IsOrdered (max node.end k) post
    pub below : start < k
    pub last : BTreeMap.last_below k m ≡ some (start, node)

  pub find :
      (lo k : ℕ) (m : RangeMap V)
      → IsOrdered lo m
      → (IsOrdered (max lo k) m × (BTreeMap.last_below k m ≡ none)) ⊎ Found lo k m
  unfolding BTreeMap.last_below
  find lo k [] o = inl (tt, refl)
  find lo k ((a, node) ∷ m) o = elim (find node.end k m o.2) [
    | inr f ↦ inr (record {
      pre = (a, node) ∷ f.pre;
      start = f.start;
      node = f.node;
      post = f.post;
      whole = ap (◌∷◌ (a, node)) f.whole;
      pre_within = (o.0, o.1, f.pre_within);
      nonempty = f.nonempty;
      post_ordered = f.post_ordered;
      below = f.below;
      last = rw f.last refl;
    })
    | inl (rest, none_below) ↦ elim (Bool-cases (ltb a k)) [
      | inl yes_below ↦ inr (record {
        pre = [];
        start = a;
        node = node;
        post = m;
        whole = refl;
        pre_within = o.0;
        nonempty = o.1;
        post_ordered = rest;
        below = ground arith;
        last = ground arith;
      })
      | inr not_below ↦ inl ((ground arith, o.1, o.2), ground arith)
    ]
  ]
