-- ===== src/Key.antt =====
-- The order of `std::string` keys, which the blocks and the memtable share: lexicographic, by unsigned
-- bytes.
use vroot_kv.Base.{ℕ, ◌≡◌, ◌≢◌, refl, arith, List, [], ◌∷◌}
use vroot_kv.Base.{Bool, true, false, not, ltb, ◌==◌, ◌&&◌, if◌then◌else◌}

abbrev pub Key : Type 0
Key = List ℕ

-- `a < b`
unfoldable pub key_lt : Key → Key → Bool
key_lt a [] = false
key_lt [] (y ∷ ys) = true
key_lt (x ∷ xs) (y ∷ ys) = if ltb x y then true else if ltb y x then false else key_lt xs ys

-- `a == b`
unfoldable pub key_eq : Key → Key → Bool
key_eq [] [] = true
key_eq [] (y ∷ ys) = false
key_eq (x ∷ xs) [] = false
key_eq (x ∷ xs) (y ∷ ys) = (x == y) && key_eq xs ys

-- `a <= b`
abbrev pub key_le : Key → Key → Bool
key_le a b = not (key_lt b a)

pub key_eq_refl : (a : Key) → key_eq a a ≡ true
unfolding key_eq
key_eq_refl [] = refl
key_eq_refl (x ∷ xs) = ground (arith, key_eq_refl xs)

pub eq_of_key_eq : (a b : Key) → key_eq a b ≡ true → a ≡ b
unfolding key_eq
eq_of_key_eq [] [] h = refl
eq_of_key_eq [] (y ∷ ys) h = cc
eq_of_key_eq (x ∷ xs) [] h = cc
eq_of_key_eq (x ∷ xs) (y ∷ ys) h = ground (arith, eq_of_key_eq xs ys)

pub key_lt_irrefl : (a : Key) → key_lt a a ≡ false
unfolding key_lt
key_lt_irrefl [] = refl
key_lt_irrefl (x ∷ xs) = ground (arith, key_lt_irrefl xs)

pub key_lt_trans : (a b c : Key) → key_lt a b ≡ true → key_lt b c ≡ true → key_lt a c ≡ true
unfolding key_lt
key_lt_trans a b [] p q = cc
key_lt_trans a [] (z ∷ zs) p q = cc
key_lt_trans [] (y ∷ ys) (z ∷ zs) p q = refl
key_lt_trans (x ∷ xs) (y ∷ ys) (z ∷ zs) p q = ground (arith, key_lt_trans xs ys zs)

pub key_lt_asymm : (a b : Key) → key_lt a b ≡ true → key_lt b a ≡ false
unfolding key_lt
key_lt_asymm a [] p = cc
key_lt_asymm [] (y ∷ ys) p = refl
key_lt_asymm (x ∷ xs) (y ∷ ys) p = ground (arith, key_lt_asymm xs ys)

-- Two keys neither of which is less are one.
pub key_lt_total : (a b : Key) → key_lt a b ≡ false → key_lt b a ≡ false → a ≡ b
unfolding key_lt
key_lt_total [] [] p q = refl
key_lt_total [] (y ∷ ys) p q = cc
key_lt_total (x ∷ xs) [] p q = cc
key_lt_total (x ∷ xs) (y ∷ ys) p q = ground (arith, key_lt_total xs ys)

pub key_le-lt_trans : (a b c : Key) → key_lt b a ≡ false → key_lt b c ≡ true → key_lt a c ≡ true
unfolding key_lt
key_le-lt_trans a b [] p q = cc
key_le-lt_trans [] b (z ∷ zs) p q = refl
key_le-lt_trans (x ∷ xs) [] (z ∷ zs) p q = cc
key_le-lt_trans (x ∷ xs) (y ∷ ys) (z ∷ zs) p q = ground (arith, key_le-lt_trans xs ys zs)

pub key_lt-le_trans : (a b c : Key) → key_lt a b ≡ true → key_lt c b ≡ false → key_lt a c ≡ true
unfolding key_lt
key_lt-le_trans a [] c p q = cc
key_lt-le_trans a (y ∷ ys) [] p q = cc
key_lt-le_trans [] (y ∷ ys) (z ∷ zs) p q = refl
key_lt-le_trans (x ∷ xs) (y ∷ ys) (z ∷ zs) p q = ground (arith, key_lt-le_trans xs ys zs)

-- What is less is not equal.
pub key_eq_of_lt : (a b : Key) → key_lt a b ≡ true → key_eq a b ≡ false
unfolding key_lt key_eq
key_eq_of_lt a [] p = cc
key_eq_of_lt [] (y ∷ ys) p = refl
key_eq_of_lt (x ∷ xs) (y ∷ ys) p = ground (arith, key_eq_of_lt xs ys)

pub key_eq_comm : (a b : Key) → key_eq a b ≡ key_eq b a
unfolding key_eq
key_eq_comm [] [] = refl
key_eq_comm [] (y ∷ ys) = refl
key_eq_comm (x ∷ xs) [] = refl
key_eq_comm (x ∷ xs) (y ∷ ys) = ground (arith, key_eq_comm xs ys)

-- `""` comes first.
pub key_lt-empty : (a : Key) → a ≢ [] → key_lt [] a ≡ true
unfolding key_lt
key_lt-empty [] h = absurd (h refl)
key_lt-empty (x ∷ xs) h = refl
