-- ===== src/CpuOrchestrator/Lists.antt =====
-- lib/CpuOrchestrator.cpp: the lists that parseCpuList gives.
use openfix.Prelude.{
  ℕ, zero, suc, ◌+◌, ◌-◌, ◌≤◌, Option, none, some, List, [], ◌∷◌, ◌++◌, ◌==◌, leb, if◌then◌else◌,
  Bytes, All, All-append, is_empty, IsInt, is_digit, inl, inr, sym, arith, Bool-cases, Option-cases,
}
use mathlib.Core.Path.{subst}
use openfix.CpuOrchestrator.{
  ◌>>=◌, insert_into, sort, read_digits, int_up, int_down, positive_int, negative_int, signed_int,
  skip_spaces, stoi, split_dash, int_range, parse_token, parse_tokens, trim, getline_all,
  parse_cpu_list,
}

-- What is read, if anything is, has a property.
abbrev pub Gives : (List ℕ → Type 0) → Option (List ℕ) → Type 0
Gives P none = Unit
Gives P (some l) = P l

Gives-bind :
    (P Q : List ℕ → Type 0) (m : Option (List ℕ)) (f : List ℕ → Option (List ℕ))
    → Gives P m
    → ((l : List ℕ) → P l → Gives Q (f l))
    → Gives Q (m >>= f)
Gives-bind P Q none f g h = tt
Gives-bind P Q (some l) f g h = h l g

abbrev IsInt? : Option ℕ → Type 0
IsInt? none = Unit
IsInt? (some n) = IsInt n

int_up-IsInt : (n : ℕ) → IsInt? (int_up n)
unfolding int_up
int_up-IsInt n = elim (Bool-cases (leb n 2147483647)) [
  | inr above ↦ rw above tt
  | inl within ↦ rw within (ground (arith, within))
]

int_down-IsInt : (n : ℕ) → IsInt? (int_down n)
unfolding int_down
int_down-IsInt n = elim (Bool-cases (leb n 2147483648)) [
  | inr below ↦ rw below tt
  | inl within ↦ rw within (omega arith)
]

positive_int-IsInt : (s : Bytes) → IsInt? (positive_int s)
unfolding positive_int
positive_int-IsInt [] = tt
positive_int-IsInt (c ∷ s) = elim (Bool-cases (is_digit c)) [
  | inr other ↦ rw other tt
  | inl digit ↦
      subst (λ b. IsInt? (if b then int_up (read_digits (c ∷ s) 0) else none)) (sym digit)
        (int_up-IsInt (read_digits (c ∷ s) 0))
]

negative_int-IsInt : (s : Bytes) → IsInt? (negative_int s)
unfolding negative_int
negative_int-IsInt [] = tt
negative_int-IsInt (c ∷ s) = elim (Bool-cases (is_digit c)) [
  | inr other ↦ rw other tt
  | inl digit ↦
      subst (λ b. IsInt? (if b then int_down (read_digits (c ∷ s) 0) else none)) (sym digit)
        (int_down-IsInt (read_digits (c ∷ s) 0))
]

signed_int-IsInt : (s : Bytes) → IsInt? (signed_int s)
unfolding signed_int
signed_int-IsInt [] = tt
signed_int-IsInt (c ∷ s) = elim (Bool-cases (c == 45)) [
  | inl minus ↦ rw minus (negative_int-IsInt s)
  | inr other ↦ rw other elim (Bool-cases (c == 43)) [
    | inl plus ↦ rw plus (positive_int-IsInt s)
    | inr digit ↦ rw digit (positive_int-IsInt (c ∷ s))
  ]
]

stoi-IsInt : (s : Bytes) → IsInt? (stoi s)
unfolding stoi
stoi-IsInt s = signed_int-IsInt (skip_spaces s)

int_range-IsInt : (lo rounds : ℕ) → lo + rounds ≤ 4294967296 → All IsInt (int_range lo rounds)
unfolding int_range
int_range-IsInt lo zero h = tt
int_range-IsInt lo (suc rounds) h =
    (omega (arith, h), int_range-IsInt (lo + 1) rounds (omega (arith, h)))

with_ints :
    (m n : Option ℕ) (f : ℕ → ℕ → List ℕ)
    → IsInt? m
    → IsInt? n
    → ((a b : ℕ) → IsInt a → IsInt b → All IsInt (f a b))
    → Gives (All IsInt) (m >>= λ a. n >>= λ b. some (f a b))
with_ints none n f hm hn h = tt
with_ints (some a) none f hm hn h = tt
with_ints (some a) (some b) f hm hn h = h a b hm hn

parse_token-IsInt : (token : Bytes) → Gives (All IsInt) (parse_token token)
unfolding parse_token
parse_token-IsInt token = elim (Option-cases (split_dash token)) [
  | inr ((front, back), e) ↦
      rw (e, parse_token)
        (with_ints (stoi front) (stoi back) (λ lo hi. int_range lo (hi + 1 - lo)) (stoi-IsInt front)
          (stoi-IsInt back) λ lo hi l h. ranged lo hi l h)
  | inl e ↦ rw (e, parse_token) (single (stoi token) (stoi-IsInt token))
]
  where
    ranged : (lo hi : ℕ) → IsInt lo → IsInt hi → All IsInt (int_range lo (hi + 1 - lo))
    ranged lo hi l h = elim (Bool-cases (leb lo (hi + 1))) [
      | inl some_rounds ↦ int_range-IsInt lo (hi + 1 - lo) (ground (arith, some_rounds, l, h))
      | inr no_rounds ↦ int_range-IsInt lo (hi + 1 - lo) (ground (arith, no_rounds, l, h))
    ]

    single : (m : Option ℕ) → IsInt? m → Gives (All IsInt) (m >>= λ cpu. some (cpu ∷ []))
    single none h = tt
    single (some cpu) h = (h, tt)

parse_tokens-IsInt :
    (tokens : List Bytes) (result : List ℕ)
    → All IsInt result
    → Gives (All IsInt) (parse_tokens tokens result)
unfolding parse_tokens
parse_tokens-IsInt [] result h = h
parse_tokens-IsInt (token ∷ tokens) result h = elim (Bool-cases (is_empty (trim token))) [
  | inl blank ↦ rw blank (parse_tokens-IsInt tokens result h)
  | inr given ↦ rw given (
      Gives-bind (All IsInt) (All IsInt) (parse_token (trim token)) _
        (parse_token-IsInt (trim token))
        λ cpus c. parse_tokens-IsInt tokens (result ++ cpus) (All-append IsInt result cpus h c))
]

-- No entry is above a later one.
abbrev pub IsAscending : List ℕ → Type 0
IsAscending [] = Unit
IsAscending (x ∷ xs) = All (λ y. x ≤ y) xs × IsAscending xs

insert_into-All : (P : ℕ → Type 0) (x : ℕ) (xs : List ℕ) → P x → All P xs → All P (insert_into x xs)
unfolding insert_into
insert_into-All P x [] p h = (p, tt)
insert_into-All P x (y ∷ ys) p h = elim (Bool-cases (leb x y)) [
  | inl first ↦ rw first (p, h)
  | inr later ↦ rw later (h.0, insert_into-All P x ys p h.1)
]

All-mono : (x y : ℕ) (l : List ℕ) → x ≤ y → All (λ z. y ≤ z) l → All (λ z. x ≤ z) l
All-mono x y [] le h = tt
All-mono x y (z ∷ l) le h = (omega (arith, le, h.0), All-mono x y l le h.1)

insert_into-IsAscending : (x : ℕ) (xs : List ℕ) → IsAscending xs → IsAscending (insert_into x xs)
unfolding insert_into
insert_into-IsAscending x [] h = (tt, tt)
insert_into-IsAscending x (y ∷ ys) h = elim (Bool-cases (leb x y)) [
  | inl first ↦ let le : x ≤ y = ground (arith, first) in rw first ((le, All-mono x y ys le h.0), h)
  | inr later ↦ rw later (
    insert_into-All (λ z. y ≤ z) x ys (ground (arith, later)) h.0,
    insert_into-IsAscending x ys h.1,
  )
]

sort-IsAscending : (l : List ℕ) → IsAscending (sort l)
unfolding sort
sort-IsAscending [] = tt
sort-IsAscending (x ∷ l) = insert_into-IsAscending x (sort l) (sort-IsAscending l)

sort-All : (P : ℕ → Type 0) (l : List ℕ) → All P l → All P (sort l)
unfolding sort
sort-All P [] h = tt
sort-All P (x ∷ l) h = insert_into-All P x (sort l) h.0 (sort-All P l h.1)

-- Whatever the text is, the numbers that parseCpuList reads from it, if it does not throw, are ints
-- in ascending order.
pub parse_cpu_list-IsAscending :
    (list : Bytes) → Gives (λ l. All IsInt l × IsAscending l) (parse_cpu_list list)
unfolding parse_cpu_list
parse_cpu_list-IsAscending list =
    Gives-bind (All IsInt) (λ l. All IsInt l × IsAscending l)
      (parse_tokens (getline_all 44 list []) []) _
      (parse_tokens-IsInt (getline_all 44 list []) [] tt)
      λ l h. (sort-All IsInt l h, sort-IsAscending l)
