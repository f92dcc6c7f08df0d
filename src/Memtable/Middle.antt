-- ===== src/Memtable/Middle.antt =====
-- A tower in the middle of others: put in, taken out, or replaced.
use vroot_kv.Base.{◌+◌, ◌≡◌, ◌≢◌, sym, arith, List, [], ◌∷◌, ◌++◌, length, All}
use vroot_kv.Memtable.Chain.{Tower, Apart, All-map}
use vroot_kv.Memtable.Relink.{Distinct}

pub All_insert {ℓ κ} :
    {A : Type ℓ} (P : A → Type κ) (xs : List A) (y : A) (zs : List A)
    → All P (xs ++ zs)
    → P y
    → All P (xs ++ (y ∷ zs))
All_insert P [] y zs a p = (p, a)
All_insert P (x ∷ xs) y zs a p = (a.0, All_insert P xs y zs a.1 p)

pub All_remove {ℓ κ} :
    {A : Type ℓ} (P : A → Type κ) (xs : List A) (y : A) (zs : List A)
    → All P (xs ++ (y ∷ zs))
    → All P (xs ++ zs)
All_remove P [] y zs a = a.1
All_remove P (x ∷ xs) y zs a = (a.0, All_remove P xs y zs a.1)

pub Distinct_insert :
    (xs : List Tower) (y : Tower) (zs : List Tower)
    → Distinct (xs ++ zs)
    → Apart y.ptr (xs ++ zs)
    → Distinct (xs ++ (y ∷ zs))
Distinct_insert [] y zs d a = (a, d)
Distinct_insert (x ∷ xs) y zs d a = (
  All_insert (λ t. t.ptr ≢ x.ptr) xs y zs d.0 (λ e. a.0 (sym e)),
  Distinct_insert xs y zs d.1 a.1,
)

pub Distinct_remove :
    (xs : List Tower) (y : Tower) (zs : List Tower)
    → Distinct (xs ++ (y ∷ zs))
    → Distinct (xs ++ zs) × Apart y.ptr (xs ++ zs)
Distinct_remove [] y zs d = (d.1, d.0)
Distinct_remove (x ∷ xs) y zs d =
    let (rest, apart) = Distinct_remove xs y zs d.1 in
    ((All_remove (λ t. t.ptr ≢ x.ptr) xs y zs d.0, rest), (λ e. mid xs d.0 (sym e), apart))
  where
    mid : (us : List Tower) → Apart x.ptr (us ++ (y ∷ zs)) → y.ptr ≢ x.ptr
    mid [] a = a.0
    mid (u ∷ us) a = mid us a.1

-- Two parts of distinct towers have no address in common.
pub Distinct_split :
    (xs ys : List Tower)
    → Distinct (xs ++ ys)
    → Distinct xs × Distinct ys × All (λ t. Apart t.ptr xs) ys
Distinct_split [] ys d = (tt, d, All-map (λ t. Unit {0}) (λ t. Unit {0}) ys (λ t u. tt) (all ys))
  where
    all : (us : List Tower) → All (λ t. Unit {0}) us
    all [] = tt
    all (u ∷ us) = (tt, all us)
Distinct_split (x ∷ xs) ys d =
    let (front, back, apart) = Distinct_split xs ys d.1 in
    ((parts xs d.0, front), back, both ys (ends xs d.0) apart)
  where
    parts : (us : List Tower) → Apart x.ptr (us ++ ys) → Apart x.ptr us
    parts [] a = tt
    parts (u ∷ us) a = (a.0, parts us a.1)

    ends : (us : List Tower) → Apart x.ptr (us ++ ys) → Apart x.ptr ys
    ends [] a = a
    ends (u ∷ us) a = ends us a.1

    both :
        (us : List Tower)
        → Apart x.ptr us
        → All (λ t. Apart t.ptr xs) us
        → All (λ t. Apart t.ptr (x ∷ xs)) us
    both [] a b = tt
    both (u ∷ us) a b = ((λ e. a.0 (sym e), b.0), both us a.1 b.1)

pub length-middle :
    {A : Type 0} (xs : List A) (y : A) (zs : List A)
    → length (xs ++ (y ∷ zs)) ≡ length (xs ++ zs) + 1
length-middle [] y zs = omega arith
length-middle (x ∷ xs) y zs = omega (arith, length-middle xs y zs)
