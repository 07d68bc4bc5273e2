-- ===== src/Costmap/Static/Fill.antt =====
-- The cells of a `StaticLayer` after the loops that interpret a message.
use navigation_learning.Prelude.{
  ℕ, zero, suc, ◌+◌, ◌*◌, ◌≤◌, ◌<◌, ◌≡◌, refl, ◌∙◌, some, List, [], ◌∷◌, map, arith, u32, lt→ltb,
  length, get_elem?, set, length-set, length-map,
}
use navigation_learning.Prelude.Int.{ℤ}
use navigation_learning.Costmap.Buffer.{at, memcpy, memcpy-Copied}
use navigation_learning.Costmap.Doubles.{to_u32}
use navigation_learning.Costmap.Grid.{copy_rows}
use navigation_learning.Costmap.Grid.Region.{row_fits}
use navigation_learning.Costmap.Messages.{OccupancyGridUpdate, to_u8}
use navigation_learning.Costmap.Static.{write_cells, write_map, write_update}

-- The costs that a message stands for.
abbrev pub interpreted : (ℕ → ℕ) → List ℤ → List ℕ
interpreted f values = map (λ v. f (to_u8 v)) values

get_elem?-interpreted :
    (f : ℕ → ℕ) (values : List ℤ) (i : ℕ)
    → i < length values
    → (v : ℤ) × (get_elem? values i ≡ some v) × (at (interpreted f values) i ≡ f (to_u8 v))
get_elem?-interpreted f [] i h = absurd (omega arith)
get_elem?-interpreted f (v ∷ values) zero h = (v, refl, refl)
get_elem?-interpreted f (v ∷ values) (suc i) h = get_elem?-interpreted f values i (omega arith)

module _ (f : ℕ → ℕ) (values : List ℤ) (small : length values < 4294967296) where
  src_size : length (interpreted f values) ≡ length values
  src_size = length-map values _

  -- The loop over a row copies the interpreted values.
  write_cells-memcpy :
      (n index di : ℕ) (m : List ℕ)
      → di + n ≤ length values
      → index + n ≤ length m
      → length m < 4294967296
      → write_cells f values n index di m ≡ memcpy m index (interpreted f values) di n
  unfolding write_cells memcpy
  write_cells-memcpy zero index di m fs fd b = refl
  write_cells-memcpy (suc n) index di m fs fd b =
      let e = get_elem?-interpreted f values di (omega arith) in
      let next : u32 (index + 1) ≡ index + 1 = omega arith in
      let next' : u32 (di + 1) ≡ di + 1 = omega arith in
      let m' = set m index (f (to_u8 e.0)) in
      let rest =
        write_cells-memcpy n (index + 1) (di + 1) m' (omega arith)
          (omega (arith, length-set m index (f (to_u8 e.0))))
          (omega (arith, length-set m index (f (to_u8 e.0)))) in
      rw
        (
          e.1,
          e.2,
          lt→ltb index (length m) (omega arith),
          lt→ltb di (length (interpreted f values)) (omega (arith, src_size)),
          next,
          next',
        )
        rest

  pub write_map-copy_rows :
      (w rows index : ℕ) (m : List ℕ)
      → index + rows * w ≤ length values
      → index + rows * w ≤ length m
      → length m < 4294967296
      → write_map f values w rows index m
        ≡ copy_rows (interpreted f values) index w m index w w rows
  unfolding write_map copy_rows
  write_map-copy_rows w zero index m fs fd b = refl
  write_map-copy_rows w (suc rows) index m fs fd b =
      let row =
        memcpy-Copied m index (interpreted f values) index w (omega (arith, src_size))
          (omega arith) in
      let rest =
        write_map-copy_rows w rows (index + w) row.out (omega arith) (omega (arith, row.size))
          (omega (arith, row.size)) in
      let next : u32 (index + w) ≡ index + w = omega arith in
      rw (write_cells-memcpy w index index m (omega arith) (omega arith) b, row.returns, next) rest

start :
    (w h ux y : ℕ)
    → w * h + w < 4294967296
    → h < 4294967296
    → ux ≤ w
    → y ≤ h
    → u32 (u32 (u32 y * w) + ux) ≡ y * w + ux
start w h ux y small tall fx fy =
    let le : y * w ≤ w * h = grind arith in
    let e : u32 y ≡ y = omega arith in
    let e' : u32 (y * w) ≡ y * w = omega arith in rw (e, e') (omega (arith, le))

-- The values of an update, as a map of the update's width, go to its place.
pub write_update-copy_rows :
    (f : ℕ → ℕ) (update : OccupancyGridUpdate) (w h ux uy rows y di : ℕ) (m : List ℕ)
    → (to_u32 (update.x) ≡ ux) × (to_u32 (update.y) ≡ uy)
    → (length m ≡ w * h) × (w * h + w < 4294967296) × (h < 4294967296)
    → length (update.values) < 4294967296
    → di + rows * update.width ≤ length (update.values)
    → (ux + update.width ≤ w) × (uy + y + rows ≤ h)
    → write_update f update w rows y di m
      ≡ copy_rows
          (interpreted f (update.values))
          di
          (update.width)
          m
          ((uy + y) * w + ux)
          w
          (update.width)
          rows
unfolding write_update copy_rows
write_update-copy_rows f update w h ux uy zero y di m ex size b fs fd = refl
write_update-copy_rows f update w h ux uy (suc rows) y di m (ex, ey) (size, small, tall) b fs
      (fx, fy) =
    let n = update.width in
    let fits = row_fits w h ux n (uy + y) fx (omega arith) in
    let first =
      write_cells-memcpy f (update.values) b n ((uy + y) * w + ux) di m (omega arith)
        (omega (arith, fits)) (omega arith) in
    let row =
      memcpy-Copied m ((uy + y) * w + ux) (interpreted f (update.values)) di n
        (omega (arith, src_size f (update.values) b)) (omega (arith, fits)) in
    let rest =
      write_update-copy_rows f update w h ux uy rows (y + 1) (di + n) row.out (ex, ey)
        (row.size ∙ size, small, tall) b (omega arith) (fx, omega arith) in
    let there : (uy + (y + 1)) * w + ux ≡ (uy + y) * w + ux + w = grind arith in
    let here : u32 (u32 (u32 (uy + y) * w) + ux) ≡ (uy + y) * w + ux =
      start w h ux (uy + y) small tall (omega arith) (omega arith) in
    let next : u32 (di + n) ≡ di + n = omega arith in
    rw (ex, ey, here, first, row.returns, next) (rw there at rest)
