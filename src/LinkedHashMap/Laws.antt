-- ===== src/LinkedHashMap/Laws.antt =====
-- The laws of the map of lib/LinkedHashMap.h: lookups after each update, and distinct keys.
use openfix.Prelude.{
  ℕ, true, false, none, some, List, [], ◌∷◌, ◌++◌, ◌==◌, if◌then◌else◌, ◌≡◌, refl, arith,
}
use openfix.LinkedHashMap.{find, has, put, erase}

module _ {ℓ} {V : Type ℓ} where
  pub find-put :
      (k j : ℕ) (v : V) (m : List (ℕ × V))
      → find j (put k v m) ≡ (if k == j then some v else find j m)
  unfolding find put
  find-put k j v [] = refl
  find-put k j v ((i, w) ∷ m) = ground (arith, find-put k j v m)

  pub has-find : (k : ℕ) (m : List (ℕ × V)) → has k m ≡ false → find k m ≡ none
  unfolding find has
  has-find k [] h = refl
  has-find k ((j, v) ∷ m) h = ground (arith, has-find k m)

  pub find-has : (k : ℕ) (m : List (ℕ × V)) (v : V) → find k m ≡ some v → has k m ≡ true
  unfolding find has
  find-has k [] v h = cc
  find-has k ((j, w) ∷ m) v h = ground (arith, find-has k m v)

  pub find-none : (k : ℕ) (m : List (ℕ × V)) → find k m ≡ none → has k m ≡ false
  unfolding find has
  find-none k [] h = refl
  find-none k ((j, w) ∷ m) h = ground (arith, find-none k m)

  pub find-append : (k : ℕ) (m n : List (ℕ × V)) → has k m ≡ false → find k (m ++ n) ≡ find k n
  unfolding find has
  find-append k [] n h = refl
  find-append k ((j, v) ∷ m) n h = ground (arith, find-append k m n)

  -- Keys are distinct.
  abbrev pub Absent : ℕ → List (ℕ × V) → Type 0
  Absent k m = has k m ≡ false

  abbrev pub Distinct : List (ℕ × V) → Type 0
  Distinct [] = Unit {0}
  Distinct ((k, v) ∷ m) = Absent k m × Distinct m

  pub has-put :
      (k j : ℕ) (v : V) (m : List (ℕ × V)) → has j (put k v m) ≡ (if k == j then true else has j m)
  unfolding has put
  has-put k j v [] = refl
  has-put k j v ((i, w) ∷ m) = ground (arith, has-put k j v m)

  pub put-Distinct : (k : ℕ) (v : V) (m : List (ℕ × V)) → Distinct m → Distinct (put k v m)
  unfolding put has
  put-Distinct k v [] d = (refl, tt)
  put-Distinct k v ((j, w) ∷ m) d = ground (arith, put-Distinct k v m d.1, has-put k j v m)

  has-erase : (k j : ℕ) (m : List (ℕ × V)) → has j m ≡ false → has j (erase k m) ≡ false
  unfolding has erase
  has-erase k j [] h = refl
  has-erase k j ((i, v) ∷ m) h = ground (arith, has-erase k j m)

  pub erase-Distinct : (k : ℕ) (m : List (ℕ × V)) → Distinct m → Distinct (erase k m)
  unfolding erase
  erase-Distinct k [] d = tt
  erase-Distinct k ((j, v) ∷ m) d = ground (arith, erase-Distinct k m d.1, has-erase k j m)

  -- In a map with distinct keys, erasing a key removes its entry, and other keys are found as before.
  pub find-erase :
      (k j : ℕ) (m : List (ℕ × V))
      → Distinct m
      → find j (erase k m) ≡ (if k == j then none else find j m)
  unfolding find erase has
  find-erase k j [] d = ground arith
  find-erase k j ((i, v) ∷ m) d = ground (arith, find-erase k j m d.1, has-find i m)
