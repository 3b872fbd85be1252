-- ===== src/Scan/Find.antt =====
-- `addr_find` of forkscan-changed/child.c: the two-level search through the minimap, while marks are
-- put into the low bits of the addresses.
use native.Mathlib.Decide.{dec_lt}
use pp_final_project.Prelude.{
  ℕ, ◌+◌, ◌-◌, ◌*◌, ◌%◌, ◌≤◌, ◌<◌, ◌≡◌, List, length, ◌==◌, if◌then◌else◌, Returns, Returns-imp,
  Returns-bind, arith, inl, inr, ◌⊎◌, lt_eq_gt,
}
use pp_final_project.Buffer.Defs.{AddrBuffer}
use pp_final_project.Scan.Defs.{addr_find, binary_search, page_addrs}
use pp_final_project.Scan.Binary.{◌!◌, IsSorted, Floor, binary_search-Floor, Floor-index}

-- A buffer that tracks the addresses `orig`: they are aligned and strictly increasing, each cell is
-- such an address or the address with its mark, and the minimap has the first address of each page.
pub record Tracked (ab : AddrBuffer) (orig : List ℕ) : Type 0 where
  pub some_addr : 0 < ab.n_addrs
  pub room : ab.n_addrs ≤ length ab.addrs
  pub sorted : IsSorted orig 0 ab.n_addrs
  pub aligned : (i : ℕ) → i < ab.n_addrs → (orig ! i) % 4 ≡ 0
  pub cells : (i : ℕ) → i < ab.n_addrs → (ab.addrs ! i ≡ orig ! i) ⊎ (ab.addrs ! i ≡ orig ! i + 1)
  pub map_room : ab.n_minimap ≤ length ab.minimap
  pub last_page : ab.n_minimap * page_addrs < ab.n_addrs + page_addrs
  pub all_pages : ab.n_addrs ≤ ab.n_minimap * page_addrs
  pub map_cells : (k : ℕ) → k < ab.n_minimap → ab.minimap ! k ≡ orig ! (k * page_addrs)

module _ (ab : AddrBuffer) (orig : List ℕ) (t : Tracked ab orig) where
  -- Marks do not disturb the order.
  pub addrs-IsSorted : (lo hi : ℕ) → hi ≤ ab.n_addrs → IsSorted ab.addrs lo hi
  addrs-IsSorted lo hi h i j p q r = ground (
    arith,
    t.sorted i j (omega arith) q (omega arith),
    t.aligned i (omega arith),
    t.aligned j (omega arith),
    t.cells i (omega arith),
    t.cells j (omega arith),
  )

  pub orig_mono : (i j : ℕ) → i ≤ j → j < ab.n_addrs → orig ! i ≤ orig ! j
  orig_mono i j p q = elim (lt_eq_gt i j) [
    | inl lt ↦ omega (arith, t.sorted i j (omega arith) lt q)
    | inr (inl same) ↦ rw same (omega arith)
    | inr (inr gt) ↦ absurd (omega arith)
  ]

  pub minimap-IsSorted : IsSorted ab.minimap 0 ab.n_minimap
  minimap-IsSorted i j p q r =
      rw (t.map_cells i (omega arith), t.map_cells j r)
        (t.sorted (i * page_addrs) (j * page_addrs) (omega arith) (omega arith)
          (omega (arith, t.last_page)))

  -- The end of the part of `addrs` that the second search looks at.
  abbrev pub page_end : ℕ → ℕ
  page_end v = if v == ab.n_minimap - 1 then ab.n_addrs else (v + 1) * page_addrs

  pub page_end_le :
      (v : ℕ) → v < ab.n_minimap → (v * page_addrs < page_end v) × (page_end v ≤ ab.n_addrs)
  page_end_le v h = ground (arith, t.last_page, t.all_pages)

  -- In a tracked buffer `addr_find` returns an index among the addresses, whatever it looks for.
  pub addr_find_in_bounds : (val : ℕ) → Returns (addr_find val ab) (λ loc. loc < ab.n_addrs)
  unfolding addr_find
  addr_find_in_bounds val =
      Returns-bind _ (binary_search val ab.minimap 0 ab.n_minimap) _
        (binary_search-Floor val ab.minimap 0 ab.n_minimap minimap-IsSorted t.map_room
          (omega (arith, t.all_pages, t.some_addr)))
        λ v f.
          let (start, end) = page_end_le v f.below_hi in
          Returns-imp (binary_search val ab.addrs (v * page_addrs) (page_end v))
            (λ r g. omega (arith, g.below_hi, end))
            (binary_search-Floor val ab.addrs (v * page_addrs) (page_end v)
              (addrs-IsSorted (v * page_addrs) (page_end v) end) (omega (arith, t.room, end)) start)

  -- The page that the first search chooses holds the address.
  page_of :
      (val v i : ℕ)
      → i < ab.n_addrs
      → orig ! i ≡ val
      → Floor val ab.minimap 0 ab.n_minimap v
      → (v * page_addrs ≤ i) × (i < page_end v)
  page_of val v i p e f = (
    from_start,
    elim (lt_eq_gt v (ab.n_minimap - 1)) [
      | inl lt ↦
          let inner : page_end v ≡ (v + 1) * page_addrs = ground arith in
          rw inner (before_next (omega arith))
      | inr (inl same) ↦ let last : page_end v ≡ ab.n_addrs = ground arith in rw last p
      | inr (inr gt) ↦ absurd (omega (arith, f.below_hi))
    ],
  )
    where
      first : ab.minimap ! 0 ≤ val
      first =
          omega (arith, t.map_cells 0 (omega (arith, f.below_hi)), orig_mono 0 i (omega arith) p, e)

      from_start : v * page_addrs ≤ i
      from_start = elim (dec_lt i (v * page_addrs)) [
        | no n ↦ omega arith
        | yes lt ↦ absurd (
            omega (
              arith,
              t.map_cells v f.below_hi,
              f.at_most first,
              t.sorted i (v * page_addrs) (omega arith) lt (omega (arith, t.last_page, f.below_hi)),
              e,
            ))
      ]

      before_next : v + 1 < ab.n_minimap → i < (v + 1) * page_addrs
      before_next more = elim (dec_lt i ((v + 1) * page_addrs)) [
        | yes lt ↦ lt
        | no ge ↦ absurd (
            omega (
              arith,
              f.next_above (v + 1) (omega arith) more,
              t.map_cells (v + 1) more,
              orig_mono ((v + 1) * page_addrs) i (omega arith) p,
              e,
            ))
      ]

  -- In a tracked buffer `addr_find` finds every address that is not marked yet.
  pub addr_find_unmarked :
      (val i : ℕ)
      → i < ab.n_addrs
      → val % 4 ≡ 0
      → ab.addrs ! i ≡ val
      → Returns (addr_find val ab) (λ loc. loc ≡ i)
  unfolding addr_find
  addr_find_unmarked val i p low e =
      let same : orig ! i ≡ val = ground (arith, t.cells i p, t.aligned i p) in
      Returns-bind _ (binary_search val ab.minimap 0 ab.n_minimap) _
        (binary_search-Floor val ab.minimap 0 ab.n_minimap minimap-IsSorted t.map_room
          (omega (arith, t.all_pages, t.some_addr)))
        λ v f.
          let (start, end) = page_end_le v f.below_hi in
          let (from, before) = page_of val v i p same f in
          Returns-imp (binary_search val ab.addrs (v * page_addrs) (page_end v))
            (λ r g.
              Floor-index val ab.addrs (v * page_addrs) (page_end v)
                (addrs-IsSorted (v * page_addrs) (page_end v) end) (omega (arith, t.room, end)) i r
                from before e g)
            (binary_search-Floor val ab.addrs (v * page_addrs) (page_end v)
              (addrs-IsSorted (v * page_addrs) (page_end v) end) (omega (arith, t.room, end)) start)
