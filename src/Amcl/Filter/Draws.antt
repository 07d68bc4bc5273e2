-- ===== src/Amcl/Filter/Draws.antt =====
-- The loops of pf_init_model and pf_update_resample in pf.c.
use navigation_learning.Prelude.{
  ℕ, zero, suc, ◌+◌, ◌*◌, ◌≤◌, ◌<◌, ◌≡◌, refl, ap, ◌⊎◌, inl, inr, true, Option, some, List, [], ◌∷◌,
  map, arith, Bool-cases, length,
}
use navigation_learning.Prelude.Int.{pos, ltb_ℤ}
use navigation_learning.Costmap.Grid.{◌>>=◌}
use navigation_learning.Amcl.KdTree.{Pose, KdTree, key_of, insert}
use navigation_learning.Amcl.KdTree.Histogram.{
  insert_all, Counted, insert_key-Added, few_nodes, fresh-le, root_bin,
}
use navigation_learning.Amcl.Filter.{Math, Random, Sample, Filter, current, resample_limit}
use navigation_learning.Amcl.Filter.Resample.{
  draw_samples, cumulative, pick, draw_pose, Drawn, resample_loop,
}

-- What goes into the tree for a sample.
abbrev pub entry : {D : Type 0} → Sample D → Pose D × D
entry a = (a.pose, a.weight)

module _ {D S : Type 0} (f : Math D) (g : Random S D) where
  pub record Started (left : ℕ) (tree : KdTree D) (o : Option (List (Sample D) × KdTree D × S))
      : Type 0 where
    pub samples : List (Sample D)
    pub out : KdTree D
    pub seed : S
    pub returns : o ≡ some (samples, out, seed)
    pub count : length samples ≡ left
    pub inserts : insert_all f.scalars tree (map entry samples) ≡ some out

  pub draw_samples-Started :
      (left : ℕ) (weight : D) (tree : KdTree D) (seed : S)
      → Counted tree
      → 2 * (tree.leaf_count + left) ≤ tree.node_max_count
      → Started left tree (draw_samples f g left weight tree seed)
  unfolding draw_samples insert insert_all
  draw_samples-Started zero weight tree seed c room = record {
    samples = [];
    out = tree;
    seed = seed;
    returns = refl;
    count = refl;
    inserts = refl;
  }
  draw_samples-Started (suc left) weight tree seed c room =
      let p = g.random_pose seed in
      let key = key_of f.scalars tree (p.0) in
      let few = few_nodes f.scalars tree.root tree.node_count tree.leaf_count c in
      let one = insert_key-Added f.scalars tree key weight c (omega arith) in
      let new = fresh-le f.scalars (root_bin tree.root key) in
      let rest =
        draw_samples-Started left weight one.out (p.1) one.counted
          (omega (arith, one.leaves, one.same_limit, new)) in
      record {
        samples = record { pose = p.0; weight = weight } ∷ rest.samples;
        out = rest.out;
        seed = rest.seed;
        returns = rw (draw_samples, insert, one.returns, ◌>>=◌, rest.returns);
        count = ap suc rest.count;
        inserts = rw (insert_all, insert, one.returns, ◌>>=◌) rest.inserts;
      }

  -- For each number that the generator gives, the samples have one of positive weight in whose
  -- interval of the table the number lies.
  abbrev pub Picks : List (Sample D) → Type 0
  Picks samples =
      (seed : S)
      → (a : Sample D) × (pick f g ((g.uniform seed).0) samples
            (cumulative f g f.scalars.zero samples)
          ≡ some a)
        × (f.lt f.scalars.zero a.weight ≡ true)

  draw_pose-returns :
      (w_diff : D) (samples : List (Sample D)) (seed : S)
      → Picks samples
      → (p : Pose D × S) × (draw_pose f g w_diff samples seed ≡ some p)
  unfolding draw_pose
  draw_pose-returns w_diff samples seed picks =
      let next = (g.uniform seed).1 in
      let choice = picks next in
      elim (Bool-cases (f.lt ((g.uniform seed).0) w_diff)) [
        | inl e ↦ (g.random_pose next, rw (draw_pose, e))
        | inr e ↦
            ((choice.0.pose, (g.uniform next).1), rw (draw_pose, e, choice.1, ◌>>=◌, choice.2))
      ]

  pub record Looped (pf : Filter D) (left count : ℕ) (tree : KdTree D) (o : Option (Drawn f g))
      : Type 0 where
    pub out : Drawn f g
    pub returns : o ≡ some out
    pub most : length out.samples ≤ left
    pub some_sample : 0 < left → 0 < length out.samples
    pub enough :
        (length out.samples ≡ left)
        ⊎ (ltb_ℤ (resample_limit f pf out.tree.leaf_count) (pos (count + length out.samples))
            ≡ true)
    pub inserts : insert_all f.scalars tree (map entry out.samples) ≡ some out.tree

  pub resample_loop-Looped :
      (pf : Filter D) (w_diff : D) (left count : ℕ) (tree : KdTree D) (total : D) (seed : S)
      → Picks (current pf).samples
      → Counted tree
      → 2 * (tree.leaf_count + left) ≤ tree.node_max_count
      → Looped pf left count tree (resample_loop f g pf w_diff left count tree total seed)
  unfolding resample_loop insert insert_all
  resample_loop-Looped pf w_diff zero count tree total seed picks c room = record {
    out = record { samples = []; tree = tree; total = total; seed = seed };
    returns = refl;
    most = omega arith;
    some_sample = λ h. absurd (omega (arith, h));
    enough = inl refl;
    inserts = refl;
  }
  resample_loop-Looped pf w_diff (suc left) count tree total seed picks c room =
      let (p, drawn) = draw_pose-returns w_diff (current pf).samples seed picks in
      let key = key_of f.scalars tree (p.0) in
      let few = few_nodes f.scalars tree.root tree.node_count tree.leaf_count c in
      let one = insert_key-Added f.scalars tree key (f.of_ℕ 1) c (omega arith) in
      let new = fresh-le f.scalars (root_bin tree.root key) in
      let rest =
        resample_loop-Looped pf w_diff left (count + 1) one.out (f.scalars.add total (f.of_ℕ 1))
          (p.1) picks one.counted (omega (arith, one.leaves, one.same_limit, new)) in
      let sample : Sample D = record { pose = p.0; weight = f.of_ℕ 1 } in
      elim (Bool-cases (ltb_ℤ (resample_limit f pf one.out.leaf_count) (pos (count + 1)))) [
        | inl b ↦ record {
          out = record {
            samples = sample ∷ [];
            tree = one.out;
            total = f.scalars.add total (f.of_ℕ 1);
            seed = p.1;
          };
          returns = rw (resample_loop, drawn, ◌>>=◌, insert, one.returns, b);
          most = omega arith;
          some_sample = λ h. omega arith;
          enough = inr b;
          inserts = rw (insert_all, insert, one.returns, ◌>>=◌) refl;
        }
        | inr b ↦ record {
          out = record rest.out { samples = sample ∷ rest.out.samples };
          returns = rw (resample_loop, drawn, ◌>>=◌, insert, one.returns, b, rest.returns);
          most = omega (arith, rest.most);
          some_sample = λ h. omega arith;
          enough = elim rest.enough [
            | inl e ↦ inl (ap suc e)
            | inr e ↦
                let drawn_so_far : count + 1 + length rest.out.samples
                    ≡ count + suc (length rest.out.samples) =
                  omega arith in
                inr (rw drawn_so_far at e)
          ];
          inserts = rw (insert_all, insert, one.returns, ◌>>=◌) rest.inserts;
        }
      ]
