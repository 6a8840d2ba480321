-- ===== src/Repository/Integrity/Keys.antt =====
-- Keys and references when rows are added, taken away or changed.
use hedonify.Prelude.{
  ℕ, ◌≡◌, ◌≢◌, refl, inl, inr, Bool, true, false, List, [], ◌∷◌, ◌++◌, map, All, elem, any_of,
  select, arith, ◌==◌, Bool-cases,
}
use hedonify.Repository.Integrity.{AreDistinct, Refer}

module _ {A : Type 0} (f : A → ℕ) where
  pub any_of-elem : (k : ℕ) (rows : List A) → any_of (λ row. k == f row) rows ≡ elem k (map f rows)
  any_of-elem k [] = refl
  any_of-elem k (row ∷ rows) = ground (arith, any_of-elem k rows)

  pub AreDistinct-added :
      (rows : List A) (row : A)
      → elem (f row) (map f rows) ≡ false
      → AreDistinct (map f rows)
      → AreDistinct (map f (rows ++ row ∷ []))
  AreDistinct-added [] row fresh h = (tt, tt)
  AreDistinct-added (x ∷ rows) row fresh h =
      (added rows h.0 (ground arith), AreDistinct-added rows row (ground arith) h.1)
    where
      added :
          (ys : List A)
          → All (λ j. j ≢ f x) (map f ys)
          → f row ≢ f x
          → All (λ j. j ≢ f x) (map f (ys ++ row ∷ []))
      added [] h n = (n, tt)
      added (y ∷ ys) h n = (h.0, added ys h.1 n)

  pub AreDistinct-select :
      (test : A → Bool) (rows : List A)
      → AreDistinct (map f rows)
      → AreDistinct (map f (select test rows))
  AreDistinct-select test [] h = tt
  AreDistinct-select test (x ∷ rows) h = elim (Bool-cases (test x)) [
    | inl yes' ↦ rw yes' (kept rows h.0, AreDistinct-select test rows h.1)
    | inr no' ↦ rw no' (AreDistinct-select test rows h.1)
  ]
    where
      kept :
          (ys : List A)
          → All (λ j. j ≢ f x) (map f ys)
          → All (λ j. j ≢ f x) (map f (select test ys))
      kept [] h = tt
      kept (y ∷ ys) h = elim (Bool-cases (test y)) [
        | inl yes' ↦ rw yes' (h.0, kept ys h.1)
        | inr no' ↦ rw no' (kept ys h.1)
      ]

  -- A key stays when rows are added.
  pub elem-added :
      (k : ℕ) (rows : List A) (row : A)
      → elem k (map f rows) ≡ true
      → elem k (map f (rows ++ row ∷ [])) ≡ true
  elem-added k [] row h = cc
  elem-added k (x ∷ rows) row h = ground (arith, elem-added k rows row)

  -- A key stays when rows with other keys are taken away.
  pub elem-select :
      (k : ℕ) (test : A → Bool) (rows : List A)
      → ((row : A) → (k == f row) ≡ true → test row ≡ true)
      → elem k (map f rows) ≡ true
      → elem k (map f (select test rows)) ≡ true
  elem-select k test [] keeps h = h
  elem-select k test (x ∷ rows) keeps h = elim (Bool-cases (test x)) [
    | inl yes' ↦ ground (arith, yes', elem-select k test rows keeps)
    | inr no' ↦ ground (arith, no', keeps x, elem-select k test rows keeps)
  ]

module _ {A : Type 0} (P : A → Type 0) where
  pub All-added : (rows : List A) (row : A) → All P rows → P row → All P (rows ++ row ∷ [])
  All-added [] row h p = (p, tt)
  All-added (x ∷ rows) row h p = (h.0, All-added rows row h.1 p)

  pub All-select : (test : A → Bool) (rows : List A) → All P rows → All P (select test rows)
  All-select test [] h = tt
  All-select test (x ∷ rows) h = elim (Bool-cases (test x)) [
    | inl yes' ↦ rw yes' (h.0, All-select test rows h.1)
    | inr no' ↦ rw no' (All-select test rows h.1)
  ]

  pub All-map :
      {Q : A → Type 0} → ((row : A) → P row → Q row) → (rows : List A) → All P rows → All Q rows
  All-map go [] h = tt
  All-map go (x ∷ rows) h = (go x h.0, All-map go rows h.1)

-- References stay good when rows are added to the table that they refer to.
pub Refer-added :
    {A B : Type 0} (f : A → ℕ) (g : B → ℕ) (rows : List A) (others : List B) (row : B)
    → Refer f rows (map g others)
    → Refer f rows (map g (others ++ row ∷ []))
Refer-added f g rows others row h =
    All-map (λ r. elem (f r) (map g others) ≡ true) (λ r. elem-added g (f r) others row) rows h
