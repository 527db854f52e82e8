-- ===== src/Trie/Node/Update.antt =====
-- The operations of algors-trie/src/node.rs on well-formed nodes: which child they find, and that
-- they keep the node well formed.
use algors.Prelude.{
  ℕ, zero, suc, ◌≤◌, ◌<◌, ◌≡◌, refl, ap, subst, List, [], ◌∷◌, Option, none, some, arith, done,
  Yields, yields, Yields-mono, ◌==◌, if◌then◌else◌, length, get_elem?, set, Bool-cases, inl, inr,
}
use mathlib.Core.Option.{some-injective}
use algors.Trie.Bytes.{IsBytes}
use algors.Trie.Bitmap.{Bitmap, empty, child_pos_from_byte}
use algors.Trie.Bitmap.Laws.{digit-empty, digit-set_bit, digit-clear_bit}
use algors.Trie.Keyed.{
  Ascending, find, place, mark, insert_at, remove_at, Ascending-length, length-insert_at, find-key,
  place-le, find-place, insert_at-place, set-place, remove_at-place,
}
use algors.Trie.Node.{
  Node, leaf, internal, Nodes, nil, cons, to_list, from_list, to_list-from_list, prefix, val,
  children, child_exists, child_idx_from_pos, get_child_by_idx, get_child_by_pos, set_child_by_pos,
  vec_insert, vec_remove, insert_internal, insert_child, remove_child, upgrade_to_internal,
}
use algors.Trie.Node.Valid.{
  key, Agrees, IsValid, AreValid, idx-place, len-length, exists-find, get-find,
}

-- What is asked of each child.
abbrev pub IsChild {ℓ} : {A : Type ℓ} → Node A → Type 0
IsChild c = (0 < length (prefix c)) × IsValid c

module _ {ℓ} {A : Type ℓ} where
  abbrev Every : List (Node A) → Type 0
  Every [] = Unit {0}
  Every (c ∷ cs) = IsChild c × Every cs

  AreValid-Every : (cs : Nodes A) → AreValid cs → Every (to_list cs)
  unfolding AreValid
  AreValid-Every nil h = tt
  AreValid-Every (cons c cs) h = ((h.0, h.1), AreValid-Every cs h.2)

  Every-AreValid : (cs : List (Node A)) → Every cs → AreValid (from_list cs)
  unfolding AreValid
  Every-AreValid [] h = tt
  Every-AreValid (c ∷ cs) h = (h.0.0, h.0.1, Every-AreValid cs h.1)

  Every-find :
      (j : ℕ) (cs : List (Node A)) (c : Node A) → Every cs → find key j cs ≡ some c → IsChild c
  unfolding find
  Every-find j [] c h e = cc
  Every-find j (d ∷ cs) c h e = elim (Bool-cases (key d == j)) [
    | inl here ↦ subst IsChild (some-injective d c (rw here at e)) h.0
    | inr there ↦ Every-find j cs c h.1 (rw there at e)
  ]

  Every-set : (i : ℕ) (cs : List (Node A)) (c : Node A) → Every cs → IsChild c → Every (set cs i c)
  Every-set i [] c h k = tt
  Every-set zero (d ∷ cs) c h k = (k, h.1)
  Every-set (suc i) (d ∷ cs) c h k = (h.0, Every-set i cs c h.1 k)

  Every-insert_at :
      (i : ℕ) (cs : List (Node A)) (c : Node A) → Every cs → IsChild c → Every (insert_at cs i c)
  Every-insert_at zero [] c h k = (k, h)
  Every-insert_at zero (d ∷ cs) c h k = (k, h)
  Every-insert_at (suc i) [] c h k = (k, tt)
  Every-insert_at (suc i) (d ∷ cs) c h k = (h.0, Every-insert_at i cs c h.1 k)

  Every-remove_at : (i : ℕ) (cs : List (Node A)) → Every cs → Every (remove_at cs i)
  Every-remove_at i [] h = tt
  Every-remove_at zero (d ∷ cs) h = h.1
  Every-remove_at (suc i) (d ∷ cs) h = (h.0, Every-remove_at i cs h.1)

  -- The child for a byte.
  abbrev pub found : Node A → ℕ → Option (Node A)
  unfolding children
  found n j = find key j (children n)

  -- The children of a well-formed node are well formed.
  pub found-IsChild : (n : Node A) (j : ℕ) (c : Node A) → IsValid n → found n j ≡ some c → IsChild c
  unfolding children IsValid find
  found-IsChild (leaf p v) j c h e = cc
  found-IsChild (internal p v m cs) j c h e = Every-find j (to_list cs) c (AreValid-Every cs h.2) e

  pub found-key : (n : Node A) (b : ℕ) (c : Node A) → found n b ≡ some c → key c ≡ b
  unfolding find children
  found-key n b c e = find-key key b (children n) e

  pub exists-found :
      (n : Node A) (b : ℕ)
      → IsValid n
      → b < 256
      → child_exists n (child_pos_from_byte b) ≡ (mark (found n b) == 1)
  unfolding child_exists children IsValid find
  exists-found (leaf p v) b h lt = refl
  exists-found (internal p v m cs) b h lt = exists-find m (to_list cs) h.1 b lt

  pub get-found :
      (n : Node A) (b : ℕ) (c : Node A)
      → IsValid n
      → b < 256
      → found n b ≡ some c
      → get_child_by_pos n (child_pos_from_byte b) ≡ done (some c)
  unfolding get_child_by_pos get_child_by_idx child_idx_from_pos children IsValid find
  get-found (leaf p v) b c h lt e = cc
  get-found (internal p v m cs) b c h lt e = get-find m (to_list cs) h.1 b c lt e

  -- `n'` is `n` with `o` for the child of byte `b`.
  pub record IsUpdate (n : Node A) (b : ℕ) (o : Option (Node A)) (n' : Node A) : Type ℓ where
    pub valid : IsValid n'
    pub same_prefix : prefix n' ≡ prefix n
    pub same_val : val n' ≡ val n
    pub finds : (j : ℕ) → found n' j ≡ (if b == j then o else found n j)

  -- Other children under the same prefix and value.
  rebuilt :
      (n : Node A) (m : Bitmap) (xs : List (Node A)) (b : ℕ) (o : Option (Node A))
      → IsBytes (prefix n)
      → Agrees m xs
      → Ascending key 0 256 xs
      → Every xs
      → ((j : ℕ) → find key j xs ≡ (if b == j then o else found n j))
      → IsUpdate n b o (internal (prefix n) (val n) m (from_list xs))
  unfolding IsValid children prefix val
  rebuilt n m xs b o bytes agrees ascending every finds = record {
    valid = (
      bytes,
      rw to_list-from_list (record { agrees = agrees; ascending = ascending }),
      Every-AreValid xs every,
    );
    same_prefix = refl;
    same_val = refl;
    finds = λ j. rw to_list-from_list (finds j);
  }

  pub set_child-IsUpdate :
      (n : Node A) (c d : Node A)
      → IsValid n
      → key c < 256
      → found n (key c) ≡ some d
      → IsChild c
      → IsUpdate n (key c) (some c) (set_child_by_pos n (child_pos_from_byte (key c)) c)
  unfolding set_child_by_pos children prefix val IsValid find
  set_child-IsUpdate (leaf p v) c d h lt e k = cc
  set_child-IsUpdate (internal p v m cs) c d h lt e k =
      let at = set-place key 0 256 (to_list cs) c d h.1.ascending e in
      let i = place key (key c) (to_list cs) in
      rw (idx-place m (to_list cs) h.1 (key c) lt) (
        rebuilt (internal p v m cs) m (set (to_list cs) i c) (key c) (some c) h.0
          (λ j lt_j. ground (arith, h.1.agrees j lt_j, at.1 j, ap mark e)) at.0
          (Every-set i (to_list cs) c (AreValid-Every cs h.2) k) at.1)

  vec_insert_lem :
      (cs : List (Node A)) (i : ℕ) (c : Node A)
      → i ≤ length cs
      → length cs < 256
      → vec_insert cs i c (length cs) ≡ done (insert_at cs i c)
  unfolding vec_insert
  vec_insert_lem cs i c h room = ground arith

  insert_internal-IsUpdate :
      (p : List ℕ) (v : Option A) (m : Bitmap) (cs : Nodes A) (c : Node A)
      → IsValid (internal p v m cs)
      → key c < 256
      → find key (key c) (to_list cs) ≡ none
      → IsChild c
      → Yields
          (IsUpdate (internal p v m cs) (key c) (some c))
          (insert_internal (internal p v m cs) (child_pos_from_byte (key c)) c)
  unfolding insert_internal children prefix val IsValid
  insert_internal-IsUpdate p v m cs c h lt e k =
      let xs = to_list cs in
      let at = insert_at-place key 0 256 xs c h.1.ascending (omega arith) lt e in
      let i = place key (key c) xs in
      let room : length xs < 256 = omega (
        arith,
        Ascending-length key 0 256 (insert_at xs i c) (omega arith) at.0,
        length-insert_at xs i c (place-le key (key c) xs),
      ) in
      rw
        (
          idx-place m xs h.1 (key c) lt,
          len-length m xs h.1,
          vec_insert_lem xs i c (place-le key (key c) xs) room,
        )
        (yields (
          rebuilt (internal p v m cs) _ (insert_at xs i c) (key c) (some c) h.0
            (λ j lt_j. ground (arith, h.1.agrees j lt_j, at.1 j, digit-set_bit m (key c) j lt lt_j))
            at.0 (Every-insert_at i xs c (AreValid-Every cs h.2) k) at.1))

  -- `insert_child` on a well-formed node, of a well-formed child under a byte at which none is
  -- found, ends with a well-formed node that has the same prefix and value, and in which that child
  -- is found under its byte and all others as before.
  pub insert_child-IsUpdate :
      (n : Node A) (c : Node A)
      → IsValid n
      → key c < 256
      → found n (key c) ≡ none
      → IsChild c
      → Yields (IsUpdate n (key c) (some c)) (insert_child n (child_pos_from_byte (key c)) c)
  unfolding insert_child upgrade_to_internal children prefix val IsValid find
  insert_child-IsUpdate (leaf p v) c h lt e k =
      Yields-mono
        (λ n' u. record {
          valid = u.valid;
          same_prefix = u.same_prefix;
          same_val = u.same_val;
          finds = u.finds;
        })
        (insert_internal-IsUpdate p v empty nil c
          (h, record { agrees = λ j lt_j. digit-empty j; ascending = tt }, tt) lt refl k)
  insert_child-IsUpdate (internal p v m cs) c h lt e k =
      insert_internal-IsUpdate p v m cs c h lt e k

  vec_remove_lem :
      (cs : List (Node A)) (i : ℕ) (c : Node A)
      → get_elem? cs i ≡ some c
      → i < length cs
      → vec_remove cs i (length cs) ≡ done (some c, remove_at cs i)
  unfolding vec_remove
  vec_remove_lem cs i c e h = rw e (ground arith)

  -- `remove_child` on a well-formed node, for a byte at which a child is found, returns that child,
  -- and leaves a well-formed node with the same prefix, value and other children.
  pub remove_child-IsUpdate :
      (n : Node A) (b : ℕ) (c : Node A)
      → IsValid n
      → b < 256
      → found n b ≡ some c
      → Yields
          (λ (res, n'). (res ≡ some c) × IsUpdate n b none n')
          (remove_child n (child_pos_from_byte b))
  unfolding remove_child children prefix val IsValid find
  remove_child-IsUpdate (leaf p v) b c h lt e = cc
  remove_child-IsUpdate (internal p v m cs) b c h lt e =
      let xs = to_list cs in
      let i = place key b xs in
      let at = remove_at-place key 0 256 b xs c h.1.ascending e in
      let here = find-place key b 0 256 xs c h.1.ascending e in
      rw (idx-place m xs h.1 b lt, len-length m xs h.1, vec_remove_lem xs i c here.0 here.1)
        (yields (
          refl,
          rebuilt (internal p v m cs) _ (remove_at xs i) b none h.0
              (λ j lt_j. ground (arith, h.1.agrees j lt_j, at.1 j, digit-clear_bit m b j lt lt_j))
              at.0 (Every-remove_at i xs (AreValid-Every cs h.2)) at.1,
        ))

  -- The same, at the byte `b` that the child begins with.
  pub insert_child-at :
      (n : Node A) (c : Node A) (b : ℕ)
      → IsValid n
      → IsChild c
      → key c ≡ b
      → b < 256
      → found n b ≡ none
      → Yields (IsUpdate n b (some c)) (insert_child n (child_pos_from_byte b) c)
  insert_child-at n c b h k e =
      subst
        (λ x.
          x < 256
          → found n x ≡ none
          → Yields (IsUpdate n x (some c)) (insert_child n (child_pos_from_byte x) c))
        e (λ lt missing. insert_child-IsUpdate n c h lt missing k)

  pub set_child-at :
      (n : Node A) (c d : Node A) (b : ℕ)
      → IsValid n
      → IsChild c
      → key c ≡ b
      → b < 256
      → found n b ≡ some d
      → IsUpdate n b (some c) (set_child_by_pos n (child_pos_from_byte b) c)
  set_child-at n c d b h k e =
      subst
        (λ x.
          x < 256
          → found n x ≡ some d
          → IsUpdate n x (some c) (set_child_by_pos n (child_pos_from_byte x) c))
        e (λ lt here. set_child-IsUpdate n c d h lt here k)
