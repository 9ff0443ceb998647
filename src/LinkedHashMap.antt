-- ===== src/LinkedHashMap.antt =====
-- lib/LinkedHashMap.h: the insertion-ordered map over a vector of pairs, with `int` keys. The
-- list is `m_data`; what `find` returns as an iterator is the value found, or `none` at the end.
pub mod Laws
pub mod Sort
use openfix.Prelude.{
  ℕ, Bool, true, false, Option, none, some, List, [], ◌∷◌, ◌++◌, ◌==◌, if◌then◌else◌,
}

module _ {ℓ} {V : Type ℓ} where
  unfoldable pub find : ℕ → List (ℕ × V) → Option V
  find k [] = none
  find k ((j, v) ∷ m) = if j == k then some v else find k m

  -- `find(key) != end()`
  unfoldable pub has : ℕ → List (ℕ × V) → Bool
  has k [] = false
  has k ((j, v) ∷ m) = if j == k then true else has k m

  -- `operator[](key) = value`: the entry in its place, or a new one at the end.
  unfoldable pub put : ℕ → V → List (ℕ × V) → List (ℕ × V)
  put k v [] = (k, v) ∷ []
  put k v ((j, w) ∷ m) = if j == k then (j, v) ∷ m else (j, w) ∷ put k v m

  -- `insert(value)`: the flag says whether the entry is new.
  unfoldable pub insert : ℕ → V → List (ℕ × V) → List (ℕ × V) × Bool
  unfolding has
  insert k v m = if has k m then (m, false) else (m ++ (k, v) ∷ [], true)

  -- `insert(pos, value)`, where `pos` splits the vector into `front` and `back`: nothing happens
  -- where the key is there already.
  unfoldable pub insert_before : ℕ → V → List (ℕ × V) → List (ℕ × V) → List (ℕ × V)
  unfolding has
  insert_before k v front back =
      if has k (front ++ back) then front ++ back else front ++ (k, v) ∷ back

  -- `erase(key)` and `erase(iterator)` for the entry that `find` gave.
  unfoldable pub erase : ℕ → List (ℕ × V) → List (ℕ × V)
  erase k [] = []
  erase k ((j, v) ∷ m) = if j == k then m else (j, v) ∷ erase k m

  unfoldable pub push_back_unchecked_dangerous : ℕ → V → List (ℕ × V) → List (ℕ × V)
  push_back_unchecked_dangerous k v m = m ++ (k, v) ∷ []
