-- ===== src/Queue/Mpmc/History.antt =====
-- The runs of algors-queue/src/mpmc.rs: which values the calls of `try_pop` have returned.
use algors.Prelude.{
  ℕ, suc, ◌+◌, ◌≤◌, ◌<◌, ◌≡◌, ◌≢◌, ◌⊎◌, inl, inr, sym, ap, ◌∙◌, List, [], ◌∷◌, ◌++◌, Option, none,
  some, true, false, arith, ◌==◌, if◌then◌else◌, get_elem?, ℕ_discrete,
}
use algors.Queue.Mpmc.{Inner, Call, pop_read, pop_release}
use algors.Queue.Mpmc.Invariant.{Knows, place}
use algors.Queue.Mpmc.Claims.{get_elem?-append_some}
use algors.Queue.Mpmc.Seen.{taking}

-- All of the numbers are below `n`.
abbrev pub Below : ℕ → List ℕ → Type 0
Below n [] = Unit {0}
Below n (p ∷ ps) = (p < n) × Below n ps

abbrev pub Falling : List ℕ → Type 0
Falling [] = Unit {0}
Falling (p ∷ ps) = Below p ps × Falling ps

pub Below-mono : (m n : ℕ) (ps : List ℕ) → m ≤ n → Below m ps → Below n ps
Below-mono m n [] le b = tt
Below-mono m n (p ∷ ps) le (lt, b) = (omega arith, Below-mono m n ps le b)

-- A position before the head was returned once, or it is of a call that is to return it; another one
-- was not returned.
abbrev pub Once : ℕ → (ℕ → Option ℕ) → ℕ → ℕ → Type 0
Once h takes p n =
    (p < h → ((n ≡ 1) × ((j : ℕ) → takes j ≢ some p)) ⊎ ((n ≡ 0) × ((j : ℕ) × (takes j ≡ some p))))
    × (h ≤ p → n ≡ 0)

module _ (h p n i : ℕ) (takes takes' : ℕ → Option ℕ)
    (others : (j : ℕ) → i ≢ j → takes' j ≡ takes j) where
  -- A call claims the position of the head.
  pub Once-reserve : takes i ≡ none → takes' i ≡ some h → Once h takes p n → Once (suc h) takes' p n
  Once-reserve before after (inside, beyond) = (
    λ lt. elim (ℕ_discrete p h) [
      | yes at ↦ inr (beyond (omega arith), (i, after ∙ ap some (sym at)))
      | no other ↦ elim (inside (omega arith)) [
        | inl (one, free) ↦ inl (
          one,
          λ j e. elim (ℕ_discrete i j) [
            | yes same ↦
                let clash : some h ≡ some p = sym after ∙ ap takes' same ∙ e in
                let eq : h ≡ p = cc in other (sym eq)
            | no ne ↦ free j (sym (others j ne) ∙ e)
          ],
        )
        | inr (zero_n, (j, e)) ↦ inr (
          zero_n,
          (
            j,
            elim (ℕ_discrete i j) [
              | yes same ↦ let clash : none ≡ some p = sym before ∙ ap takes same ∙ e in cc
              | no ne ↦ others j ne ∙ e
            ],
          ),
        )
      ]
    ],
    λ le. beyond (omega arith),
  )

  -- A call returns the value of position `q`.
  pub Once-return :
      (q : ℕ)
      → q < h
      → takes i ≡ some q
      → takes' i ≡ none
      → ((j : ℕ) → takes j ≡ some q → i ≡ j)
      → Once h takes p n
      → Once h takes' p ((if q == p then 1 else 0) + n)
  Once-return q q_lt before after unique (inside, beyond) = elim (ℕ_discrete q p) [
    | yes at ↦
        let test : (q == p) ≡ true = ground arith in
        let mine : takes i ≡ some p = before ∙ ap some at in
        rw test (
          λ lt. elim (inside lt) [
            | inl (one, free) ↦ absurd (free i mine)
            | inr (zero_n, used) ↦ inl (
              omega arith,
              λ j e. elim (ℕ_discrete i j) [
                | yes same ↦ let clash : none ≡ some p = sym after ∙ ap takes' same ∙ e in cc
                | no ne ↦ ne (unique j (sym (others j ne) ∙ e ∙ ap some (sym at)))
              ],
            )
          ],
          λ le. absurd (omega arith),
        )
    | no other ↦
        let test : (q == p) ≡ false = ground arith in
        rw test (
          λ lt. elim (inside lt) [
            | inl (one, free) ↦ inl (
              omega arith,
              λ j e. elim (ℕ_discrete i j) [
                | yes same ↦ let clash : none ≡ some p = sym after ∙ ap takes' same ∙ e in cc
                | no ne ↦ free j (sym (others j ne) ∙ e)
              ],
            )
            | inr (zero_n, (j, e)) ↦ inr (
              omega arith,
              (
                j,
                elim (ℕ_discrete i j) [
                  | yes same ↦
                      let clash : some q ≡ some p = sym before ∙ ap takes same ∙ e in
                      let eq : q ≡ p = cc in absurd (other eq)
                  | no ne ↦ others j ne ∙ e
                ],
              ),
            )
          ],
          λ le. omega (arith, beyond le),
        )
  ]

-- What one thread got: positions before the head, and before the one that it is to return now, the later
-- the greater.
abbrev pub InOrder : ℕ → Option ℕ → List ℕ → Type 0
InOrder h takes ps = Falling ps × Below h ps × ((q : ℕ) → takes ≡ some q → Below q ps)

module _ {ℓ} {A : Type ℓ} where
  -- The values are those of their positions.
  abbrev pub AreAt : List A → List (ℕ × A) → Type ℓ
  AreAt vals [] = Unit {ℓ}
  AreAt vals ((p, v) ∷ xs) = (get_elem? vals p ≡ some v) × AreAt vals xs

  pub AreAt-append : (vals ys : List A) (xs : List (ℕ × A)) → AreAt vals xs → AreAt (vals ++ ys) xs
  AreAt-append vals ys [] h = tt
  AreAt-append vals ys ((p, v) ∷ xs) (e, h) =
      (get_elem?-append_some vals ys p v e, AreAt-append vals ys xs h)

  pub taking-place : (c : Call A) (p : ℕ) → taking c ≡ some p → place c ≡ some p
  taking-place (pop_read q) p e = e
  taking-place (pop_release q v) p e = e
  taking-place _ p e = cc

  pub taking-lt :
      (room : ℕ) (inner : Inner A) (vals : List A) (c : Call A) (p : ℕ)
      → Knows room inner vals c
      → taking c ≡ some p
      → p < inner.head
  taking-lt room inner vals (pop_read q) p (lt, le, k) e = let same : q ≡ p = cc in omega arith
  taking-lt room inner vals (pop_release q v) p (lt, le, holds, val) e =
      let same : q ≡ p = cc in omega arith
  taking-lt room inner vals _ p k e = cc
