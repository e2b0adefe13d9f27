-- ===== src/RangeMap/Defs.antt =====
-- src/process/user_space/range_map.rs: `RangeMap<U, V>` at addresses, `[start, end) -> value`.
-- A closure that takes `&mut V` returns the value that it leaves there. What `release` is called
-- with is kept in a log, the latest call first.
use mankoros.Base.{
  ℕ, zero, suc, Bool, true, false, ◌&&◌, Option, none, some, [], ◌∷◌, ltb, leb, ◌==◌, if◌then◌else◌,
  max, length, Run, ok, panic, ◌>>=◌, ◌>>◌, assert, unwrap,
}
use mankoros.BTreeMap
use mankoros.BTreeMap.{Map}

pub record Node {ℓ} (V : Type ℓ) : Type ℓ where
  pub end : ℕ
  pub value : V

abbrev pub RangeMap {ℓ} : Type ℓ → Type ℓ
RangeMap V = Map (Node V)

-- `FnMut(&mut V, U, Range<U>) -> V`: the value left in place, and the value returned
abbrev pub Split {ℓ} : Type ℓ → Type ℓ
Split V = V → ℕ → ℕ → ℕ → Run (V × V)

abbrev pub last_upto {ℓ} : {V : Type ℓ} → ℕ → RangeMap V → Option (ℕ × Node V)
last_upto k m = BTreeMap.last_below (suc k) m

module _ {ℓ} {V : Type ℓ} where
  -- `none` is `Err(value)`
  unfoldable pub try_insert : RangeMap V → ℕ → ℕ → V → Run (Option (RangeMap V))
  try_insert m start end value = do
    assert (ltb start end)
    let fresh = unwrap (BTreeMap.try_insert start (record { end = end; value = value }) m)
    let done : Run (Option (RangeMap V)) = fresh >>= λ m'. ok (some m')
    elim (BTreeMap.last_below end m) [
      | some (_, node) ↦ if ltb start node.end then ok none else done
      | none ↦ done
    ]

  unfoldable pub get : RangeMap V → ℕ → Option (ℕ × ℕ × V)
  get m key = elim (last_upto key m) [
    | none ↦ none
    | some (start, node) ↦ if ltb key node.end then some (start, node.end, node.value) else none
  ]

  -- the `for` loop of `find_free_range`: `none` is its `return None`
  unfoldable pub find_free_loop : ℕ → ℕ → (ℕ → ℕ → Run ℕ) → ℕ → RangeMap V → Run (Option ℕ)
  find_free_loop end size offset start [] = ok (some start)
  find_free_loop end size offset start ((n_start, node) ∷ r) =
      let rest = find_free_loop end size offset node.end r in
      offset node.end size >>= λ xend.
      if ltb end xend then ok none else if leb xend n_start then ok (some start) else rest

  -- `find_free_range` from the loop on; `range(start..end)` panics where `end < start`
  unfoldable pub find_free_from : RangeMap V → ℕ → ℕ → (ℕ → ℕ → Run ℕ) → ℕ → Run (Option (ℕ × ℕ))
  find_free_from m end size offset start = do
    assert (leb start end)
    found ← find_free_loop end size offset start (BTreeMap.between start end m)
    elim found [
      | none ↦ ok none
      | some s ↦ offset s size >>= λ t. assert (leb t end) >> ok (some (s, t))
    ]

  -- `offset` adds a length to an address, rounded up; it panics where the sum overflows.
  unfoldable pub find_free_range : RangeMap V → ℕ → ℕ → ℕ → (ℕ → ℕ → Run ℕ) → Run (Option (ℕ × ℕ))
  find_free_range m start end size offset = do
    first_end ← offset start size
    let search = find_free_from m end size offset start
    let searched : Run (Option (ℕ × ℕ)) = elim (BTreeMap.last_below start m) [
      | none ↦ search
      | some (_, node) ↦ offset node.end size >>= λ xend.
          assert (leb xend end) >> find_free_from m end size offset (max start node.end)
    ]
    if ltb end first_end then ok none else searched

  -- `true` is `Ok(())`
  unfoldable pub range_is_free : RangeMap V → ℕ → ℕ → Run Bool
  range_is_free m start end =
      let rest : Bool = elim (BTreeMap.first_between start end m) [
        | some _ ↦ false
        | none ↦ true
      ] in
      if leb end start then ok false else elim (BTreeMap.last_below start m) [
        | none ↦ ok rest
        | some (_, node) ↦ if ltb start node.end then ok false else ok rest
      ]

  unfoldable pub range_contain : RangeMap V → ℕ → ℕ → Option V
  range_contain m start end = elim (last_upto start m) [
    | none ↦ none
    | some (_, node) ↦ if leb end node.end then some node.value else none
  ]

  unfoldable pub range_match : RangeMap V → ℕ → ℕ → Option V
  range_match m start end = elim (last_upto start m) [
    | none ↦ none
    | some (n_start, node) ↦ if n_start == start && node.end == end then some node.value else none
  ]

  unfoldable pub force_remove_one : RangeMap V → ℕ → ℕ → Run (V × RangeMap V)
  force_remove_one m start end = do
    (node, m') ← unwrap (BTreeMap.remove start m)
    assert (node.end == end)
    ok (node.value, m')

  -- the three parts of `remove`, each from the map and the log so far
  unfoldable pub remove_left :
      Split V → RangeMap V × RangeMap V → ℕ → ℕ → Run (RangeMap V × RangeMap V)
  remove_left split_r (m, log) start end = elim (BTreeMap.last_below start m) [
    | none ↦ ok (m, log)
    | some (n_start, node) ↦
        let cut : Run (RangeMap V × RangeMap V) = do
          (v_l, v_m) ← split_r node.value start n_start node.end
          let m' = BTreeMap.put n_start (record { end = start; value = v_l }) m
          let middle : Run (RangeMap V × RangeMap V) = do
            (v_m', v_r) ← split_r v_m end start node.end
            m'' ← unwrap (BTreeMap.try_insert end (record { end = node.end; value = v_r }) m')
            ok (m'', (start, record { end = end; value = v_m' }) ∷ log)
          let tail : Run (RangeMap V × RangeMap V) =
              ok (m', (start, record { end = node.end; value = v_m }) ∷ log)
          if ltb end node.end then middle else tail
        in if ltb start node.end then cut else ok (m, log)
  ]

  unfoldable pub remove_right :
      Split V → RangeMap V × RangeMap V → ℕ → Run (RangeMap V × RangeMap V)
  remove_right split_l (m, log) end = elim (BTreeMap.last_below end m) [
    | none ↦ ok (m, log)
    | some (n_start, node) ↦
        let cut : Run (RangeMap V × RangeMap V) = do
          (v_r, v_c) ← split_l node.value end n_start node.end
          let m' = BTreeMap.put n_start (record node { value = v_r }) m
          (node', rest) ← unwrap (BTreeMap.remove n_start m')
          m'' ← unwrap (BTreeMap.try_insert end node' rest)
          ok (m'', (n_start, record { end = end; value = v_c }) ∷ log)
        in if ltb end node.end then cut else ok (m, log)
  ]

  -- Each round removes an entry, so one more than their number is enough fuel.
  unfoldable pub remove_inner : ℕ → RangeMap V × RangeMap V → ℕ → ℕ → Run (RangeMap V × RangeMap V)
  remove_inner zero (m, log) start end = panic
  remove_inner (suc fuel) (m, log) start end = elim (BTreeMap.first_between start end m) [
    | none ↦ ok (m, log)
    | some (n_start, _) ↦ unwrap (BTreeMap.remove n_start m) >>= λ (node, rest).
        remove_inner fuel (rest, (n_start, node) ∷ log) start end
  ]

  unfoldable pub remove :
      RangeMap V → ℕ → ℕ → Split V → Split V → RangeMap V → Run (RangeMap V × RangeMap V)
  remove m start end split_l split_r log = if leb end start then ok (m, log) else (do
    s ← remove_left split_r (m, log) start end
    t ← remove_right split_l s end
    remove_inner (suc (length t.0)) t start end)

  unfoldable pub replace :
      RangeMap V → ℕ → ℕ → V → Split V → Split V → RangeMap V → Run (RangeMap V × RangeMap V)
  replace m start end value split_l split_r log = do
    (m', log') ← remove m start end split_l split_r log
    m'' ← unwrap (BTreeMap.try_insert start (record { end = end; value = value }) m')
    ok (m'', log')

  unfoldable pub split_at : RangeMap V → ℕ → Split V → Run (RangeMap V)
  split_at m p split_r = do
    (start, node) ← unwrap (BTreeMap.last_below p m)
    assert (ltb p node.end)
    (v_l, v_r) ← split_r node.value p start node.end
    let m' = BTreeMap.put start (record { end = p; value = v_l }) m
    unwrap (BTreeMap.try_insert p (record { end = node.end; value = v_r }) m')

  unfoldable pub split_at_maybe : RangeMap V → ℕ → Split V → Run (RangeMap V)
  split_at_maybe m p split_r = elim (BTreeMap.last_below p m) [
    | none ↦ ok m
    | some (start, node) ↦
        let cut : Run (RangeMap V) = do
          (v_l, v_r) ← split_r node.value p start node.end
          let m' = BTreeMap.put start (record { end = p; value = v_l }) m
          unwrap (BTreeMap.try_insert p (record { end = node.end; value = v_r }) m')
        in if leb node.end p then ok m else cut
  ]

  -- `l_run` and `r_run` change the value that they are given
  unfoldable pub split_at_run :
      RangeMap V → ℕ → Split V → (V → ℕ → ℕ → V) → (V → ℕ → ℕ → V) → Run (RangeMap V)
  split_at_run m p split_r l_run r_run = do
    (start, node) ← unwrap (BTreeMap.last_below p m)
    assert (ltb p node.end)
    (v_l, v_r) ← split_r node.value p start node.end
    let m' = BTreeMap.put start (record { end = p; value = l_run v_l start p }) m
    let right : Node V = record { end = node.end; value = r_run v_r p node.end }
    unwrap (BTreeMap.try_insert p right m')

  -- every segment is released in order; the log has the latest first
  unfoldable pub clear_log : RangeMap V → RangeMap V → RangeMap V
  clear_log [] log = log
  clear_log ((n_start, node) ∷ m) log = clear_log m ((n_start, node) ∷ log)

  unfoldable pub clear : RangeMap V → RangeMap V → RangeMap V × RangeMap V
  clear m log = ([], clear_log m log)

  unfoldable pub fork_into : (V → V) → RangeMap V → RangeMap V → Run (RangeMap V)
  fork_into f new [] = ok new
  fork_into f new ((a, node) ∷ m) =
      unwrap (BTreeMap.try_insert a (record { end = node.end; value = f node.value }) new)
      >>= λ new'. fork_into f new' m

  unfoldable pub fork : RangeMap V → (V → V) → Run (RangeMap V)
  fork m f = fork_into f [] m

  -- `merge` with the segment after it: the map, and the segment as it then is
  unfoldable pub merge_next : RangeMap V → ℕ → Node V → (V → V → Bool) → RangeMap V × Node V
  merge_next m start cur f = elim (BTreeMap.get cur.end m) [
    | none ↦ (m, cur)
    | some nxt ↦
        let grown = record cur { end = nxt.end } in
        if f cur.value nxt.value
        then (BTreeMap.put start grown (BTreeMap.erase cur.end m), grown)
        else (m, cur)
  ]

  unfoldable pub merge_prev : RangeMap V → ℕ → Node V → (V → V → Bool) → RangeMap V
  merge_prev m start cur f = elim (BTreeMap.last_below start m) [
    | none ↦ m
    | some (s, n) ↦
        if n.end == start && f n.value cur.value
        then BTreeMap.erase start (BTreeMap.put s (record n { end = cur.end }) m)
        else m
  ]

  unfoldable pub merge : RangeMap V → ℕ → ℕ → (V → V → Bool) → Run (RangeMap V)
  merge m start end f = do
    cur ← unwrap (BTreeMap.get start m)
    assert (cur.end == end)
    let (m', cur') = merge_next m start cur f
    ok (merge_prev m' start cur' f)

  -- `none` is `Err(())`
  unfoldable pub extend_back : RangeMap V → ℕ → ℕ → Run (Option (RangeMap V))
  extend_back m start new_end = do
    node ← unwrap (BTreeMap.get start m)
    free ← range_is_free m node.end new_end
    ok (if free then some (BTreeMap.put start (record node { end = new_end }) m) else none)

  -- the range that was cut off, and the map; `none` is `Err(())`
  unfoldable pub reduce_back : RangeMap V → ℕ → ℕ → Run (Option (ℕ × ℕ × RangeMap V))
  reduce_back m start new_end = do
    node ← unwrap (BTreeMap.get start m)
    let m' =
        if start == new_end
        then BTreeMap.erase start m
        else BTreeMap.put start (record node { end = new_end }) m
    ok (if leb start new_end && ltb new_end node.end then some (new_end, node.end, m') else none)
