-- ===== src/Trie/Layout/Slices.antt =====
-- `from_slices` of algors-trie/src/prefix.rs makes what `new` makes of the slices put together.
use mathlib.Core.List.{append-nil, append_assoc}
use algors.Prelude.{
  ℕ, zero, suc, ◌+◌, ◌≤◌, ◌<◌, ◌≡◌, refl, sym, ap, ◌∙◌, inl, inr, List, [], ◌∷◌, ◌++◌, some,
  Bool-cases, arith, done, leb, length, length-append, length-drop, length-take, take-append-drop,
  get_or, set, take, drop, replicate,
}
use algors.Trie.Layout.{
  Memory, write_at, inline_tag, new, copy_all, total_len, first_of, from_slices,
}

abbrev pub concat : List (List ℕ) → List ℕ
concat [] = []
concat (slice ∷ slices) = slice ++ concat slices

take-before : (u z : List ℕ) (n : ℕ) → n ≡ length u → take n (u ++ z) ≡ u
take-before [] z n e = rw e refl
take-before (x ∷ u) z zero e = absurd (omega arith)
take-before (x ∷ u) z (suc n) e = ap (◌∷◌ x) (take-before u z n (omega arith))

drop-before : (u z : List ℕ) (k m : ℕ) → k ≡ length u + m → drop k (u ++ z) ≡ drop m z
drop-before [] z k m e = ap (λ i. drop i z) (omega arith)
drop-before (x ∷ u) z zero m e = absurd (omega arith)
drop-before (x ∷ u) z (suc k) m e = drop-before u z k m (omega arith)

drop-nil : (n : ℕ) → drop {A = ℕ} n [] ≡ []
drop-nil zero = refl
drop-nil (suc n) = refl

drop-drop : (n m k : ℕ) (xs : List ℕ) → k ≡ n + m → drop m (drop n xs) ≡ drop k xs
drop-drop zero m k xs e = ap (λ i. drop i xs) (omega arith)
drop-drop (suc n) m k [] e = drop-nil m ∙ sym (drop-nil k)
drop-drop (suc n) m zero (x ∷ xs) e = absurd (omega arith)
drop-drop (suc n) m (suc k) (x ∷ xs) e = drop-drop n m k xs (omega arith)

drop-past : (n : ℕ) (xs : List ℕ) → length xs ≤ n → drop n xs ≡ []
drop-past n [] le = drop-nil n
drop-past zero (x ∷ xs) le = absurd (omega arith)
drop-past (suc n) (x ∷ xs) le = drop-past n xs (omega arith)

-- Two copies, one behind the other, are one.
write_at-append :
    (i : ℕ) (xs ys dest : List ℕ)
    → i + length xs + length ys ≤ length dest
    → write_at (i + length xs) ys (write_at i xs dest) ≡ write_at i (xs ++ ys) dest
unfolding write_at
write_at-append i xs ys dest le =
    let n = i + length xs in
    let u = take i dest ++ xs in
    let size : n ≡ length u = omega (arith, length-append (take i dest) xs, length-take i dest) in
    let before : take i dest ++ (xs ++ drop n dest) ≡ u ++ drop n dest =
      sym (append_assoc (take i dest) xs (drop n dest)) in
    let start : take n (take i dest ++ (xs ++ drop n dest)) ≡ u =
      ap (λ l. take n l) before ∙ take-before u (drop n dest) n size in
    let end : drop (n + length ys) (take i dest ++ (xs ++ drop n dest))
        ≡ drop (i + length (xs ++ ys)) dest =
      ap (λ l. drop (n + length ys) l) before
      ∙ drop-before u (drop n dest) (n + length ys) (length ys) (omega (arith, size))
      ∙ drop-drop n (length ys) (i + length (xs ++ ys)) dest (omega (arith, length-append xs ys)) in
    ap (λ l. l ++ (ys ++ drop (n + length ys) (take i dest ++ (xs ++ drop n dest)))) start
    ∙ ap (λ l. u ++ (ys ++ l)) end
    ∙ append_assoc (take i dest) xs (ys ++ drop (i + length (xs ++ ys)) dest)
    ∙ ap (λ l. take i dest ++ l) (sym (append_assoc xs ys (drop (i + length (xs ++ ys)) dest)))

write_at-nil : (i : ℕ) (dest : List ℕ) → i ≤ length dest → write_at i [] dest ≡ dest
unfolding write_at
write_at-nil i dest le =
    ap (λ k. take i dest ++ drop k dest) (omega arith) ∙ take-append-drop i dest

length-write_at :
    (i : ℕ) (xs dest : List ℕ)
    → i + length xs ≤ length dest
    → length (write_at i xs dest) ≡ length dest
unfolding write_at
length-write_at i xs dest le = omega (
  arith,
  length-append (take i dest) (xs ++ drop (i + length xs) dest),
  length-append xs (drop (i + length xs) dest),
  length-take i dest,
  length-drop (i + length xs) dest,
)

total_len-concat : (slices : List (List ℕ)) → total_len slices ≡ length (concat slices)
unfolding total_len
total_len-concat [] = refl
total_len-concat (slice ∷ slices) =
    omega (arith, length-append slice (concat slices), total_len-concat slices)

copy_all-concat :
    (i : ℕ) (slices : List (List ℕ)) (dest : List ℕ)
    → i + length (concat slices) ≤ length dest
    → copy_all i slices dest ≡ write_at i (concat slices) dest
unfolding copy_all
copy_all-concat i [] dest le = sym (write_at-nil i dest (omega arith))
copy_all-concat i (slice ∷ slices) dest le =
    let size = length-append slice (concat slices) in
    copy_all-concat (i + length slice) slices (write_at i slice dest)
      (omega (arith, size, length-write_at i slice dest (omega (arith, size))))
    ∙ write_at-append i slice (concat slices) dest (omega (arith, size))

first_of-concat :
    (slices : List (List ℕ))
    → 0 < length (concat slices)
    → first_of slices ≡ some (get_or (concat slices) 0 0)
unfolding first_of
first_of-concat [] pos = absurd (omega arith)
first_of-concat ([] ∷ slices) pos = first_of-concat slices pos
first_of-concat ((x ∷ slice) ∷ slices) pos = refl

write_at-whole : (xs dest : List ℕ) → length dest ≡ length xs → write_at 0 xs dest ≡ xs
unfolding write_at
write_at-whole xs dest e =
    let nothing : drop (0 + length xs) dest ≡ [] = drop-past (0 + length xs) dest (omega arith) in
    ap (λ l. xs ++ l) nothing ∙ append-nil xs

-- On a block as long as the slices together, `from_slices` makes the same 16 bytes, and leaves the same memory,
-- as `new` does of the slices put together. It panics exactly where that does.
pub from_slices-new :
    (pt : ℕ) (block : List ℕ) (memory : Memory) (slices : List (List ℕ))
    → length block ≡ length (concat slices)
    → from_slices pt block memory slices ≡ new pt memory (concat slices)
unfolding from_slices new
from_slices-new pt block memory slices size = elim (Bool-cases (leb (length (concat slices)) 15)) [
  | inl short ↦
      rw (total_len-concat slices, short)
        (ap (λ b. done (record { bytes = b }, memory))
          (copy_all-concat 1 slices (set (replicate 16 0) 0 (inline_tag (length (concat slices))))
            (ground arith)))
  | inr long ↦
      let first = first_of-concat slices (ground arith) in
      let copied : copy_all 0 slices block ≡ concat slices =
        copy_all-concat 0 slices block (omega (arith, size))
        ∙ write_at-whole (concat slices) block size in
      rw (total_len-concat slices, long, first, copied) refl
]
