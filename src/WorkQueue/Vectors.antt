-- ===== src/WorkQueue/Vectors.antt =====
-- The vectors behind the work queue: membership, the last element, and the loop that moves one
-- vector into the other.
use mathlib.Core.List.{reverse-cons, reverse-reverse, append-nil, append_assoc}
use llir_opt.Prelude.{
  ℕ, zero, suc, ◌≤◌, ◌<◌, ◌≡◌, refl, sym, ap, ◌∙◌, ◌⊎◌, inl, inr, Bool, true, false, ◌||◌, List, [],
  ◌∷◌, ◌++◌, reverse, some, arith, length, length-append, get_elem?, set, ◌==◌, if◌then◌else◌,
}
use llir_opt.WorkQueue.{resize, take_back, refill}

abbrev pub contains : List ℕ → ℕ → Bool
contains [] a = false
contains (x ∷ xs) a = a == x || contains xs a

-- No element twice.
abbrev pub IsDistinct : List ℕ → Type 0
IsDistinct [] = Unit
IsDistinct (x ∷ xs) = (contains xs x ≡ false) × IsDistinct xs

abbrev pub flag : List Bool → ℕ → Bool
flag [] i = false
flag (b ∷ bs) zero = b
flag (b ∷ bs) (suc i) = flag bs i

pub contains-append :
    (xs ys : List ℕ) (a : ℕ) → contains (xs ++ ys) a ≡ (contains xs a || contains ys a)
contains-append [] ys a = refl
contains-append (x ∷ xs) ys a = ground (arith, contains-append xs ys a)

pub IsDistinct-end :
    (xs : List ℕ) (a : ℕ) → IsDistinct xs → contains xs a ≡ false → IsDistinct (xs ++ a ∷ [])
IsDistinct-end [] a d h = (refl, tt)
IsDistinct-end (x ∷ xs) a d h =
    (ground (arith, contains-append xs (a ∷ []) x), IsDistinct-end xs a d.1 (ground arith))

pub take_back-end : (xs : List ℕ) (a : ℕ) → take_back (xs ++ a ∷ []) ≡ some (xs, a)
unfolding take_back
take_back-end [] a = refl
take_back-end (x ∷ xs) a = rw (take_back-end xs a) refl

pub length-reverse : (xs : List ℕ) → length (reverse xs) ≡ length xs
length-reverse [] = refl
length-reverse (x ∷ xs) =
    omega
      (arith, ap length (reverse-cons x xs), length-append (reverse xs) (x ∷ []), length-reverse xs)

get_elem?-middle : (xs ys : List ℕ) (a : ℕ) → get_elem? (xs ++ a ∷ ys) (length xs) ≡ some a
get_elem?-middle [] ys a = refl
get_elem?-middle (x ∷ xs) ys a = get_elem?-middle xs ys a

-- The loop over a vector whose reverse is `zs`.
refill-lem :
    (zs rest taken : List ℕ) → refill (length zs) (reverse zs ++ rest) taken ≡ some (taken ++ zs)
unfolding refill
refill-lem [] rest taken = ap some (sym (append-nil taken))
refill-lem (z ∷ zs) rest taken =
    let split : reverse (z ∷ zs) ++ rest ≡ reverse zs ++ z ∷ rest =
      ap (λ t. t ++ rest) (reverse-cons z zs) ∙ append_assoc (reverse zs) (z ∷ []) rest in
    let at : get_elem? (reverse zs ++ z ∷ rest) (length zs) ≡ some z =
      ap (get_elem? (reverse zs ++ z ∷ rest)) (sym (length-reverse zs))
      ∙ get_elem?-middle (reverse zs) rest z in
    ap (λ p. refill (suc (length zs)) p taken) split
    ∙ rw (at, refill)
        (refill-lem zs (z ∷ rest) (taken ++ z ∷ []) ∙ ap some (append_assoc taken (z ∷ []) zs))

-- The whole loop of `Pop`: the other vector, back to front.
pub refill-reverse : (xs : List ℕ) → refill (length xs) xs [] ≡ some (reverse xs)
refill-reverse xs =
    ap (λ n. refill n xs []) (sym (length-reverse xs))
    ∙ ap (λ p. refill (length (reverse xs)) p []) (sym (append-nil _ ∙ reverse-reverse xs))
    ∙ refill-lem (reverse xs) [] []

pub flag-resize : (n i : ℕ) (bs : List Bool) → length bs ≤ n → flag (resize n bs) i ≡ flag bs i
unfolding resize
flag-resize zero i [] h = refl
flag-resize zero i (b ∷ bs) h = absurd (omega arith)
flag-resize (suc n) zero [] h = refl
flag-resize (suc n) (suc i) [] h = flag-resize n i [] (omega arith)
flag-resize (suc n) zero (b ∷ bs) h = refl
flag-resize (suc n) (suc i) (b ∷ bs) h = flag-resize n i bs (omega arith)

pub length-resize : (n : ℕ) (bs : List Bool) → length (resize n bs) ≡ n
unfolding resize
length-resize zero bs = refl
length-resize (suc n) [] = ap suc (length-resize n [])
length-resize (suc n) (b ∷ bs) = ap suc (length-resize n bs)

pub flag-get : (bs : List Bool) (i : ℕ) → i < length bs → get_elem? bs i ≡ some (flag bs i)
flag-get [] i h = elim h [ ]
flag-get (b ∷ bs) zero h = refl
flag-get (b ∷ bs) (suc i) h = flag-get bs i (omega arith)

pub flag-set :
    (bs : List Bool) (i j : ℕ) (v : Bool)
    → i < length bs
    → flag (set bs i v) j ≡ (if j == i then v else flag bs j)
flag-set [] i j v h = elim h [ ]
flag-set (b ∷ bs) zero zero v h = refl
flag-set (b ∷ bs) zero (suc j) v h = ground arith
flag-set (b ∷ bs) (suc i) zero v h = ground arith
flag-set (b ∷ bs) (suc i) (suc j) v h = ground (arith, flag-set bs i j v)

pub flag_lt : (bs : List Bool) (i : ℕ) → flag bs i ≡ true → i < length bs
flag_lt [] i h = cc
flag_lt (b ∷ bs) zero h = omega arith
flag_lt (b ∷ bs) (suc i) h = omega (arith, flag_lt bs i h)

-- A vector is empty or has a last element.
pub back_cases : (xs : List ℕ) → (xs ≡ []) ⊎ ((front : List ℕ) × (a : ℕ) × (xs ≡ front ++ a ∷ []))
back_cases [] = inl refl
back_cases (x ∷ xs) = elim (back_cases xs) [
  | inl none_left ↦ inr ([], x, ap (◌∷◌ x) none_left)
  | inr (front, a, e) ↦ inr (x ∷ front, a, ap (◌∷◌ x) e)
]

pub nil_of_length : (xs : List ℕ) → length xs ≡ 0 → xs ≡ []
nil_of_length [] h = refl
nil_of_length (x ∷ xs) h = absurd (omega arith)
