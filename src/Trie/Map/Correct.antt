-- ===== src/Trie/Map/Correct.antt =====
-- `insert` of algors-trie/src/trie.rs stores the value under the key, and changes no other key.
use algors.Prelude.{
  ℕ, zero, suc, ◌+◌, ◌-◌, ◌^◌, ◌≤◌, ◌<◌, ◌≡◌, refl, ap, sym, subst, ◌∙◌, inl, inr, List, [], ◌∷◌,
  some, true, false, arith, Outcome, done, ◌>>=◌, Yields, yields, Yields-mono, Yields-bind,
  Yields-if, ltb, ◌==◌, if◌then◌else◌, length, drop, take, get_or, length-drop, Bool-cases, min,
  or_panic,
}
use algors.Trie.Bytes.{IsBytes, IsBytes-drop, common, common-le}
use algors.Trie.Lcp.Correct.{lcp-common}
use algors.Trie.Bitmap.{child_pos_from_byte}
use algors.Trie.Node
use algors.Trie.Node.{
  Node, leaf, prefix, val, set_val, put_val, child_exists, get_child_by_pos, set_child_by_pos,
  insert_child,
}
use algors.Trie.Node.Valid.{key, IsValid}
use algors.Trie.Node.Update.{IsChild}
use algors.Trie.Node.Fits.{Fits, Fits-prefix, Fits-same}
use algors.Trie.Lookup.{strip, same, lookup}
use algors.Trie.Map.{head_byte, insert_loop, split}
use algors.Trie.Map.Get.{prefix-IsBytes}
use algors.Trie.Map.Insert.{
  IsInserted, Below, branch, branch-IsUpdate, set_val-holds, set_val-IsValid, set_val-parts,
  update-holds,
}
use algors.Trie.Map.Split.{split-holds}

-- As much of `p` as `k` shares starts `k`.
strip-take-common : (p k : List ℕ) → strip (take (common p k) p) k ≡ some (drop (common p k) k)
unfolding strip common
strip-take-common [] k = refl
strip-take-common (x ∷ p) [] = refl
strip-take-common (x ∷ p) (y ∷ k) = elim (Bool-cases (x == y)) [
  | inl e ↦ rw (e, e) (strip-take-common p k)
  | inr ne ↦ rw ne
]

length-take-common : (p k : List ℕ) → length (take (common p k) p) ≡ common p k
unfolding common
length-take-common [] k = refl
length-take-common (x ∷ p) [] = refl
length-take-common (x ∷ p) (y ∷ k) = elim (Bool-cases (x == y)) [
  | inl e ↦ rw e (ap suc (length-take-common p k))
  | inr ne ↦ rw ne refl
]

take-all : (p : List ℕ) (l : ℕ) → length p ≤ l → take l p ≡ p
take-all [] zero h = refl
take-all [] (suc l) h = refl
take-all (x ∷ p) zero h = absurd (omega arith)
take-all (x ∷ p) (suc l) h = ap (◌∷◌ x) (take-all p l (omega arith))

take_first :
    (q : List ℕ) (b : ℕ) (r : List ℕ)
    → 0 < length q
    → get_or q 0 0 ≡ b
    → (0 < length (take (common q (b ∷ r)) q)) × (get_or (take (common q (b ∷ r)) q) 0 0 ≡ b)
unfolding common
take_first [] b r pos e = absurd (omega arith)
take_first (x ∷ q) b r pos e =
    let same_byte : (x == b) ≡ true = ground arith in rw same_byte (omega arith, e)

common-pos :
    (q : List ℕ) (b : ℕ) (r : List ℕ) → 0 < length q → get_or q 0 0 ≡ b → 0 < common q (b ∷ r)
unfolding common
common-pos [] b r pos e = absurd (omega arith)
common-pos (x ∷ q) b r pos e = ground arith

module _ {ℓ} {A : Type ℓ} where
  -- The part of a round after the split.
  finish : ℕ → ℕ → List ℕ → A → Node A → Outcome (Node A)
  finish fuel l k v n =
      if l == length k
      then done (set_val n v)
      else (head_byte (drop l k) >>= λ byte.
          let child_pos = child_pos_from_byte byte in
          if child_exists n child_pos
          then (get_child_by_pos n child_pos >>= λ child. or_panic child >>= λ c.
              insert_loop fuel c (drop l k) v >>= λ d. done (set_child_by_pos n child_pos d))
          else (Node.new (drop l k) >>= λ fresh. insert_child n child_pos (set_val fresh v)))

  -- `n'` holds what `n` does but `v` under `k`, below the same prefix.
  abbrev Stored : ℕ → Node A → List ℕ → A → Node A → Type ℓ
  Stored room n k v n' =
      IsValid n'
      × Fits room n'
      × (prefix n' ≡ prefix n)
      × ((j : List ℕ) → lookup n' j ≡ (if same k j then some v else lookup n j))

  finish-Stored :
      (fuel l room : ℕ) (k : List ℕ) (v : A) (n : Node A) (r : List ℕ)
      → IsValid n
      → IsBytes r
      → room ≤ 2 ^ 32
      → Fits room n
      → length k < room
      → length (prefix n) ≡ l
      → l ≤ length k
      → drop l k ≡ r
      → strip (prefix n) k ≡ some r
      → ((b : ℕ) (s : List ℕ) → r ≡ b ∷ s → Below fuel (room - length (prefix n)) b s v)
      → Yields (Stored room n k v) (finish fuel l k v n)
  unfolding finish branch head_byte
  finish-Stored fuel l room k v n [] valid bytes limit fit short at le left e below =
      let size : l ≡ length k = omega (arith, length-drop l k, ap length left) in
      let here : (l == length k) ≡ true = ground arith in
      let (same_prefix, same_val, same_found) = set_val-parts n v in
      rw here (
        yields (
          set_val-IsValid n v valid,
          Fits-same n (set_val n v) room same_prefix (λ b. ap (λ f. f b) same_found) fit,
          same_prefix,
          set_val-holds n k v valid e,
        ))
  finish-Stored fuel l room k v n (b ∷ r) valid bytes limit fit short at le left e below =
      let size : l + suc (length r) ≡ length k = omega (arith, length-drop l k, ap length left) in
      let more : (l == length k) ≡ false = ground arith in
      rw (more, left)
        (Yields-mono
          (λ n' (o, u, fit', holds).
            (u.valid, fit', u.same_prefix, update-holds n k (some v) valid b r o n' e u holds))
          (branch-IsUpdate fuel n v valid b r bytes room limit fit (omega (arith, size, at, short))
            (below b r refl)))

  -- Which child the next call gets, and why its result may take the place of that child.
  IsChild-first :
      (c : Node A) (b : ℕ) (r : List ℕ) (v : A) (d : Node A)
      → IsChild c
      → key c ≡ b
      → IsInserted c (b ∷ r) v d
      → IsChild d × (key d ≡ b)
  unfolding prefix
  IsChild-first c b r v d child e ins =
      let (pos, at) = take_first (prefix c) b r child.0 e in
      ((rw ins.shared pos, ins.valid), ap (λ q. get_or q 0 0) ins.shared ∙ at)

  -- The node after the split, if there was one: its prefix is what the key shares.
  split_or_not :
      (n : Node A) (l : ℕ)
      → IsValid n
      → length (prefix n) < 2 ^ 32
      → Yields
          (λ m.
            IsValid m
            × (prefix m ≡ take l (prefix n))
            × ((j : List ℕ) → lookup m j ≡ lookup n j)
            × ((room : ℕ) → Fits room n → Fits room m))
          (if ltb l (length (prefix n)) then split n l else done n)
  split_or_not n l valid size =
      Yields-if (ltb l (length (prefix n))) (λ short. split-holds n l valid (ground arith) size)
        (λ whole.
          yields (valid, sym (take-all (prefix n) l (ground arith)), (λ j. refl), λ room h. h))

  -- A call that inserts the rest `r` of the key into a child with enough fuel.
  abbrev Insertion : ℕ → ℕ → List ℕ → A → Type ℓ
  Insertion fuel room r v =
      (c : Node A)
      → IsValid c
      → IsBytes r
      → Fits room c
      → length r + 1 < fuel + min 1 (common (prefix c) r)
      → Yields (λ d. IsInserted c r v d × Fits room d) (insert_loop fuel c r v)

  -- The next call gets a shorter key, and a child with which that key shares a byte.
  next_call :
      (fuel l room : ℕ) (k : List ℕ) (v : A)
      → length k + 1 < suc fuel + min 1 l
      → IsBytes k
      → Insertion fuel room (drop l k) v
      → (b : ℕ) (s : List ℕ) → drop l k ≡ b ∷ s
      → Below fuel room b s v
  unfolding prefix
  next_call fuel l room k v f bytes insertion b s left c child at fit =
      let pos = common-pos (prefix c) b s child.0 at in
      let size = ap length left in
      Yields-mono
        (λ d (ins, fit').
          let (child', at') = IsChild-first c b s v d child at ins in (ins, child', at', fit'))
        (subst (λ r. Insertion fuel room r v) left insertion c child.1
          (rw left at (IsBytes-drop l k bytes)) fit (omega (arith, length-drop l k, size, pos)))

  pub insert_loop-IsInserted :
      (fuel room : ℕ) (n : Node A) (k : List ℕ) (v : A)
      → IsValid n
      → IsBytes k
      → room ≤ 2 ^ 32
      → Fits room n
      → length k < room
      → length k + 1 < fuel + min 1 (common (prefix n) k)
      → Yields (λ n'. IsInserted n k v n' × Fits room n') (insert_loop fuel n k v)
  unfolding insert_loop finish
  insert_loop-IsInserted zero room n k v valid bytes limit fit short f = absurd (omega arith)
  insert_loop-IsInserted (suc fuel) room n k v valid bytes limit fit short f =
      let l = common (prefix n) k in
      rw (lcp-common (prefix n) k (prefix-IsBytes n valid) bytes) (
        Yields-bind (split_or_not n l valid (omega (arith, Fits-prefix fit, limit)))
          λ m (ok, same_prefix, same_lookup, keeps).
            let started : strip (prefix m) k ≡ some (drop l k) =
              rw same_prefix (strip-take-common (prefix n) k) in
            let size : length (prefix m) ≡ l =
              ap length same_prefix ∙ length-take-common (prefix n) k in
            let fit' : Fits room m = keeps room fit in
            let left : length (drop l k) < room - length (prefix m) =
              omega (arith, size, short, length-drop l k, (common-le (prefix n) k).1) in
            let last : Yields (Stored room m k v) (finish fuel l k v m) =
              finish-Stored fuel l room k v m (drop l k) ok (IsBytes-drop l k bytes) limit fit'
                short size (common-le (prefix n) k).1 refl started
                (next_call fuel l (room - length (prefix m)) k v f bytes
                  λ c ok_c rest_bytes fit_c enough.
                    insert_loop-IsInserted fuel (room - length (prefix m)) c (drop l k) v ok_c
                      rest_bytes (omega (arith, limit)) fit_c left enough) in
            Yields-mono
              (λ n' (ok', fit'', kept, holds). (
                record {
                  valid = ok';
                  shared = kept ∙ same_prefix;
                  holds = λ j. rw same_lookup at (holds j);
                },
                fit'',
              ))
              last)
