-- ===== src/Trie/Visit/Correct.antt =====
-- `for_each_prefix` of algors-trie/src/trie.rs calls its closure once for each value under the prefix.
use algors.Prelude.{
  ℕ, suc, ◌+◌, ◌<◌, ◌≡◌, refl, ap, ap₂, sym, ◌∙◌, inl, inr, List, [], ◌∷◌, ◌++◌, Option, none, some,
  true, false, arith, ◌==◌, if◌then◌else◌, Yields, yields, Yields-bind, length, drop, take,
  take-append-drop, Bool-cases, get_or,
}
use algors.Trie.Bytes.{IsBytes}
use algors.Trie.Keyed.{Ascending, find, find-below}
use algors.Trie.Node.{Node, leaf, internal, Nodes, nil, cons, to_list, prefix, val, children}
use algors.Trie.Node.Valid.{key, IsValid, AreValid}
use algors.Trie.Node.Update.{found}
use algors.Trie.Lookup.{strip, same, after, lookup, lookup?, lookup_lem, strip-append}
use algors.Trie.Map.{TrieMap}
use algors.Trie.Map.Get.{IsTree}
use algors.Trie.Prefix.Correct.{IsEnd, find_prefix_node-IsEnd}
use algors.Trie.Visit.{
  SuffixRef, extend_all, to_vec, call, visit, visit_children, visit_from, for_each_prefix,
}

pub extend_all-snoc :
    (out : List ℕ) (chunks : List (List ℕ)) (c : List ℕ)
    → extend_all out (chunks ++ c ∷ []) ≡ extend_all out chunks ++ c
unfolding extend_all
extend_all-snoc out [] c = refl
extend_all-snoc out (d ∷ chunks) c = extend_all-snoc (out ++ d) chunks c

same-ends : (p s : List ℕ) → same p s ≡ after (strip p s) false true (λ b r. false)
unfolding same strip
same-ends [] [] = refl
same-ends [] (y ∷ s) = refl
same-ends (x ∷ p) [] = refl
same-ends (x ∷ p) (y ∷ s) = elim (Bool-cases (x == y)) [
  | inl e ↦ rw e (same-ends p s)
  | inr ne ↦ rw ne
]

strip-nil : (p : List ℕ) → 0 < length p → strip p [] ≡ none
unfolding strip
strip-nil [] pos = absurd (omega arith)
strip-nil (x ∷ p) pos = refl

strip_other :
    (p : List ℕ) (b : ℕ) (r : List ℕ)
    → 0 < length p
    → (get_or p 0 0 == b) ≡ false
    → strip p (b ∷ r) ≡ none
unfolding strip
strip_other [] b r pos other = absurd (omega arith)
strip_other (x ∷ p) b r pos other = rw other

strip-both : (q r s : List ℕ) → strip (q ++ r) (q ++ s) ≡ strip r s
unfolding strip
strip-both [] r s = refl
strip-both (x ∷ q) r s = let self : (x == x) ≡ true = ground arith in rw self (strip-both q r s)

nothing_left : (xs : List ℕ) → (length xs == 0) ≡ true → xs ≡ []
nothing_left [] e = refl
nothing_left (x ∷ xs) e = absurd (ground arith)

module _ {ℓ} {A : Type ℓ} where
  -- The values of the calls with a suffix.
  pub values_of : List ℕ → List (SuffixRef × A) → List A
  values_of s [] = []
  values_of s ((suffix, value) ∷ calls) =
      if same (to_vec suffix) s then value ∷ values_of s calls else values_of s calls

  -- One call for a value, and none where there is none.
  abbrev pub once : Option A → List A
  once none = []
  once (some x) = x ∷ []

  values_of-append :
      (s : List ℕ) (xs ys : List (SuffixRef × A))
      → values_of s (xs ++ ys) ≡ values_of s xs ++ values_of s ys
  unfolding values_of
  values_of-append s [] ys = refl
  values_of-append s ((suffix, value) ∷ xs) ys = elim (Bool-cases (same (to_vec suffix) s)) [
    | inl e ↦ rw e (ap (◌∷◌ value) (values_of-append s xs ys))
    | inr ne ↦ rw ne (values_of-append s xs ys)
  ]

  call-values :
      (v : Option A) (chunks : List (List ℕ)) (n : ℕ) (s : List ℕ)
      → values_of s (call v chunks n)
        ≡ once (after (strip (extend_all [] chunks) s) none v (λ b r. none))
  unfolding values_of call to_vec
  call-values none chunks n s = ends (strip (extend_all [] chunks) s)
    where
      ends : (o : Option (List ℕ)) → ◌≡◌ {A = List A} [] (once (after o none none (λ b r. none)))
      ends none = refl
      ends (some []) = refl
      ends (some (b ∷ r)) = refl
  call-values (some x) chunks n s =
      rw (same-ends (extend_all [] chunks) s) (ends (strip (extend_all [] chunks) s))
    where
      ends :
          (o : Option (List ℕ))
          → (if after o false true (λ b r. false) then x ∷ [] else [])
            ≡ once (after o none (some x) (λ b r. none))
      ends none = refl
      ends (some []) = refl
      ends (some (b ∷ r)) = refl

  -- What a node has below its prefix.
  abbrev pub under : Node A → Option (List ℕ) → Option A
  under n s = after s none (val n) (λ b r. lookup? (found n b) r)

  abbrev pub under_all : List (Node A) → Option (List ℕ) → Option A
  under_all cs s = after s none none (λ b r. lookup? (find key b cs) r)

  once-append : (o : Option A) → once o ++ [] ≡ once o
  once-append none = refl
  once-append (some x) = refl

  -- The value of a node, and then those of its children.
  under-parts :
      (v : Option A) (cs : List (Node A)) (o : Option (List ℕ))
      → once (after o none v (λ b r. none)) ++ once (under_all cs o)
        ≡ once (after o none v (λ b r. lookup? (find key b cs) r))
  under-parts v cs none = refl
  under-parts none cs (some []) = refl
  under-parts (some x) cs (some []) = refl
  under-parts v cs (some (b ∷ r)) = refl

  -- The first child, and then the others: at most one of them has the string.
  under_all-cons :
      (c : Node A) (cs : List (Node A)) (lo hi : ℕ) (o : Option (List ℕ))
      → 0 < length (prefix c)
      → Ascending key lo hi (c ∷ cs)
      → once (under c (elim o [ none ↦ none | some t ↦ strip (prefix c) t ]))
          ++ once (under_all cs o)
        ≡ once (under_all (c ∷ cs) o)
  unfolding find prefix
  under_all-cons c cs lo hi none pos up = refl
  under_all-cons c cs lo hi (some []) pos up = rw (strip-nil (prefix c) pos)
  under_all-cons c cs lo hi (some (b ∷ r)) pos up = elim (Bool-cases (key c == b)) [
    | inl here ↦
        let past : find key b cs ≡ none =
          find-below key b (suc (key c)) hi cs up.2 (ground arith) in
        rw (here, past, ← lookup_lem c (b ∷ r)) (once-append (lookup c (b ∷ r)))
    | inr there ↦ rw (there, strip_other (prefix c) b r pos there)
  ]

  mutual
    unfolding visit IsValid find val children values_of

    visit-values :
        (n : Node A) (chunks : List (List ℕ)) (len : ℕ) (s : List ℕ)
        → IsValid n
        → values_of s (visit n chunks len) ≡ once (under n (strip (extend_all [] chunks) s))
    visit-values (leaf p v) chunks len s h = call-values v chunks len s
    visit-values (internal p v m cs) chunks len s h =
        values_of-append s (call v chunks len) (visit_children cs chunks len)
        ∙ ap₂ ◌++◌ (call-values v chunks len s)
            (visit_children-values cs chunks len s 0 256 h.1.ascending h.2)
        ∙ under-parts v (to_list cs) (strip (extend_all [] chunks) s)

    visit_children-values :
        (cs : Nodes A) (chunks : List (List ℕ)) (len : ℕ) (s : List ℕ) (lo hi : ℕ)
        → Ascending key lo hi (to_list cs)
        → AreValid cs
        → values_of s (visit_children cs chunks len)
          ≡ once (under_all (to_list cs) (strip (extend_all [] chunks) s))
    visit_children-values nil chunks len s lo hi up h = none_left (strip (extend_all [] chunks) s)
      where
        none_left : (o : Option (List ℕ)) → [] ≡ once (under_all [] o)
        none_left none = refl
        none_left (some []) = refl
        none_left (some (b ∷ r)) = refl
    visit_children-values (cons c cs) chunks len s lo hi up h =
        values_of-append s (visit c (chunks ++ prefix c ∷ []) (len + length (prefix c)))
          (visit_children cs chunks len)
        ∙ ap₂ ◌++◌
            (visit-values c (chunks ++ prefix c ∷ []) (len + length (prefix c)) s h.1
              ∙ ap (λ o. once (under c o))
                  (ap (λ q. strip q s) (extend_all-snoc [] chunks (prefix c))
                    ∙ strip-append (extend_all [] chunks) (prefix c) s))
            (visit_children-values cs chunks len s (suc (key c)) hi up.2 h.2)
        ∙ under_all-cons c (to_list cs) lo hi (strip (extend_all [] chunks) s) h.0 up

  visit_from-values :
      (m : Node A) (offset : ℕ) (s : List ℕ)
      → IsValid m
      → values_of s (visit_from m offset) ≡ once (lookup m (take offset (prefix m) ++ s))
  unfolding visit_from extend_all
  visit_from-values m offset s h =
      let first = drop offset (prefix m) in
      let cut : strip (prefix m) (take offset (prefix m) ++ s) ≡ strip first s =
        ap (λ q. strip q (take offset (prefix m) ++ s)) (sym (take-append-drop offset (prefix m)))
        ∙ strip-both (take offset (prefix m)) first s in
      let goal : once (lookup m (take offset (prefix m) ++ s)) ≡ once (under m (strip first s)) =
        ap once (lookup_lem m (take offset (prefix m) ++ s) ∙ ap (under m) cut) in
      elim (Bool-cases (length first == 0)) [
        | inl empty ↦ rw empty (
            visit-values m [] 0 s h
            ∙ ap (λ q. once (under m (strip q s))) (sym (nothing_left first empty))
            ∙ sym goal)
        | inr some_left ↦
            rw some_left (visit-values m (first ∷ []) (0 + length first) s h ∙ sym goal)
      ]

  end-values :
      (holds : List ℕ → Option A) (o : Option (Node A × ℕ))
      → IsEnd holds o
      → (s : List ℕ)
      → values_of s (elim o [ none ↦ [] | some (node, offset) ↦ visit_from node offset ])
        ≡ once (holds s)
  unfolding values_of
  end-values holds none e s = ap once (sym (e s))
  end-values holds (some (m, offset)) (le, valid, same_lookup) s =
      visit_from-values m offset s valid ∙ ap once (sym (same_lookup s))

  -- `for_each_prefix` for a byte string on a map with a well-formed tree ends. For each suffix it calls the closure
  -- once, with the value of the key that is the string and the suffix, if the tree has that key, and
  -- else not at all.
  pub for_each_prefix-once :
      (t : TrieMap A) (k : List ℕ)
      → IsTree t
      → IsBytes k
      → Yields
          (λ calls. (s : List ℕ) → values_of s calls ≡ once (lookup? t.root (k ++ s)))
          (for_each_prefix t k)
  unfolding for_each_prefix
  for_each_prefix-once t k h bytes =
      Yields-bind (find_prefix_node-IsEnd t k h bytes)
        λ o e. yields (end-values (λ s. lookup? t.root (k ++ s)) o e)
