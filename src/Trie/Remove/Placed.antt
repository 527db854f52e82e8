-- ===== src/Trie/Remove/Placed.antt =====
-- Where a node below the visited ones of algors-trie/src/trie.rs stands, counted in bytes: how many its own
-- ways down may spell so that no way down the tree spells 2 ^ 32.
use algors.Prelude.{ℕ, ◌-◌, ◌^◌, ◌≤◌, ◌≡◌, refl, subst, [], ◌∷◌, some, arith, length}
use mathlib.Core.Option.{some-injective}
use algors.Trie.Bitmap.{ChildPos, child_pos_from_byte}
use algors.Trie.Node.{Node, prefix, set_child_by_pos}
use algors.Trie.Node.Valid.{IsValid}
use algors.Trie.Node.Update.{found, IsUpdate}
use algors.Trie.Node.Fits.{Fits, Fits-found, Fits-update}
use algors.Trie.Remove.{Visited, plug}
use algors.Trie.Remove.Trail.{IsTrail, equal-IsFit, IsTrail-IsFit, above-IsUpdate}

module _ {ℓ} {A : Type ℓ} where
  -- The visited nodes leave `room` bytes for what stands below them.
  abbrev pub Leaves : ℕ → Visited A → Type ℓ
  Leaves room [] = (room ≡ 2 ^ 32) × Unit {ℓ}
  Leaves room ((above, pos) ∷ visited) =
      (around : ℕ) × (room ≡ around - length (prefix above))
      × Fits around above
      × Leaves around visited

  abbrev pub IsPlaced : Node A → Visited A → Type ℓ
  IsPlaced cur visited = (room : ℕ) × Fits room cur × Leaves room visited

  pub Leaves-le : (room : ℕ) (visited : Visited A) → Leaves room visited → room ≤ 2 ^ 32
  Leaves-le room [] (e, _) = omega (arith, e)
  Leaves-le room ((above, pos) ∷ visited) (around, e, fit, up) =
      omega (arith, e, Leaves-le around visited up)

  pub root-IsPlaced : (root : Node A) → Fits (2 ^ 32) root → IsPlaced root []
  root-IsPlaced root fit = (2 ^ 32, fit, (refl, tt))

  pub child-IsPlaced :
      (cur : Node A) (visited : Visited A) (b : ℕ) (pos : ChildPos) (c : Node A)
      → IsPlaced cur visited
      → found cur b ≡ some c
      → IsPlaced c ((cur, pos) ∷ visited)
  child-IsPlaced cur visited b pos c (room, fit, up) here =
      (room - length (prefix cur), Fits-found fit b c here, (room, refl, fit, up))

  pub changed-IsPlaced :
      (n n' : Node A) (visited : Visited A)
      → IsPlaced n visited
      → ((room : ℕ) → Fits room n → Fits room n')
      → IsPlaced n' visited
  changed-IsPlaced n n' visited (room, fit, up) keeps = (room, keeps room fit, up)

  -- The node above, with the child written back.
  pub above-IsPlaced :
      (above cur m : Node A) (pos : ChildPos) (visited : Visited A) (b : ℕ)
      → IsUpdate above b (some cur) m
      → IsPlaced cur ((above, pos) ∷ visited)
      → IsPlaced m visited
  above-IsPlaced above cur m pos visited b u (room, fit, (around, e, whole, up)) = (
    around,
    Fits-update above b (some cur) m around u whole λ c is.
        subst (λ k. Fits (around - length (prefix above)) k) (some-injective cur c is)
          (subst (λ r. Fits r cur) e fit),
    up,
  )

  pub plug-Fits :
      (visited : Visited A) (cur : Node A)
      → IsTrail cur visited
      → IsValid cur
      → IsPlaced cur visited
      → Fits (2 ^ 32) (plug cur visited)
  unfolding plug
  plug-Fits [] cur trail valid (room, fit, (e, _)) = subst (λ r. Fits r cur) e fit
  plug-Fits ((above, pos) ∷ visited) cur (b, d, at, lt, child, first, here, ok, up) valid placed =
      let u =
        above-IsUpdate above cur cur d b lt child first here ok (equal-IsFit cur cur valid refl) in
      let m = set_child_by_pos above (child_pos_from_byte b) cur in
      rw at (
        plug-Fits visited m
          (IsTrail-IsFit visited above m up (equal-IsFit above m u.valid u.same_prefix)) u.valid
          (above-IsPlaced above cur m pos visited b u placed))
