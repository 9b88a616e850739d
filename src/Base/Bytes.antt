-- ===== src/Base/Bytes.antt =====
-- Bytes of a memory that is a function of the address, and lists of them.
use heterogeneous_multicore.Base.{
  ℕ, zero, suc, ◌+◌, ◌-◌, ◌≤◌, ◌<◌, ◌≡◌, refl, ap, ◌∙◌, ◌⊎◌, inl, inr, List, [], ◌∷◌, ◌++◌, arith,
  length, get_or, if◌then◌else◌, ◌==◌, ==_refl, leb,
}

-- The bytes of a list go to an address, or come from one.
abbrev pub put : ℕ → List ℕ → (ℕ → ℕ) → ℕ → ℕ
put a [] mem = mem
put a (x ∷ xs) mem = put (suc a) xs (λ b. if b == a then x else mem b)

abbrev pub bytes_at : ℕ → ℕ → (ℕ → ℕ) → List ℕ
bytes_at a zero mem = []
bytes_at a (suc n) mem = mem a ∷ bytes_at (suc a) n mem

pub put-other :
    (a : ℕ) (xs : List ℕ) (mem : ℕ → ℕ) (b : ℕ)
    → (b < a) ⊎ (a + length xs ≤ b)
    → put a xs mem b ≡ mem b
put-other a [] mem b out = refl
put-other a (x ∷ xs) mem b out = put-other (suc a) xs _ b (further out) ∙ same out
  where
    same : (b < a) ⊎ (a + suc (length xs) ≤ b) → (if b == a then x else mem b) ≡ mem b
    same (inl below) = ground arith
    same (inr above) = ground arith

    further : (b < a) ⊎ (a + suc (length xs) ≤ b) → (b < suc a) ⊎ (suc a + length xs ≤ b)
    further (inl below) = inl (omega arith)
    further (inr above) = inr (omega arith)

pub bytes_at-put : (a : ℕ) (xs : List ℕ) (mem : ℕ → ℕ) → bytes_at a (length xs) (put a xs mem) ≡ xs
bytes_at-put a [] mem = refl
bytes_at-put a (x ∷ xs) mem =
    let m = λ (b : ℕ). if b == a then x else mem b in
    ap (λ y. y ∷ bytes_at (suc a) (length xs) (put (suc a) xs m))
      (put-other (suc a) xs m a (inl (omega arith)) ∙ rw (==_refl a) refl)
    ∙ ap (λ ys. x ∷ ys) (bytes_at-put (suc a) xs m)

pub bytes_at-same :
    (a n : ℕ) (m m' : ℕ → ℕ)
    → ((b : ℕ) → a ≤ b → b < a + n → m' b ≡ m b)
    → bytes_at a n m' ≡ bytes_at a n m
bytes_at-same a zero m m' same = refl
bytes_at-same a (suc n) m m' same =
    ap (λ y. y ∷ bytes_at (suc a) n m') (same a (omega arith) (omega arith))
    ∙ ap (λ ys. m a ∷ ys)
        (bytes_at-same (suc a) n m m' (λ b low high. same b (omega arith) (omega arith)))

-- Two regions that hold the same.
pub bytes_at-moved :
    (a b n : ℕ) (m m' : ℕ → ℕ)
    → ((i : ℕ) → i < n → m' (a + i) ≡ m (b + i))
    → bytes_at a n m' ≡ bytes_at b n m
bytes_at-moved a b zero m m' same = refl
bytes_at-moved a b (suc n) m m' same =
    ap (λ y. y ∷ bytes_at (suc a) n m')
      (at a b 0 (same 0 (omega arith)) (omega arith) (omega arith))
    ∙ ap (λ ys. m b ∷ ys)
        (bytes_at-moved (suc a) (suc b) n m m' λ i h.
          at (suc a + i) (suc b + i) (suc i) (same (suc i) (omega arith)) (omega arith)
            (omega arith))
  where
    at : (x y i : ℕ) → m' (a + i) ≡ m (b + i) → a + i ≡ x → b + i ≡ y → m' x ≡ m y
    at x y i h e f = rw (← e, ← f) h

pub bytes_at-append :
    (a n k : ℕ) (m : ℕ → ℕ) → bytes_at a (n + k) m ≡ bytes_at a n m ++ bytes_at (a + n) k m
bytes_at-append a zero k m =
    let zeros : 0 + k ≡ k = omega arith in
    let base : a + 0 ≡ a = omega arith in rw (zeros, base) refl
bytes_at-append a (suc n) k m =
    let more : suc n + k ≡ suc (n + k) = omega arith in
    let base : a + suc n ≡ suc a + n = omega arith in
    rw (more, base) (ap (λ ys. m a ∷ ys) (bytes_at-append (suc a) n k m))

pub length-bytes_at : (a n : ℕ) (m : ℕ → ℕ) → length (bytes_at a n m) ≡ n
length-bytes_at a zero m = refl
length-bytes_at a (suc n) m = ap suc (length-bytes_at (suc a) n m)

-- A region whose two parts are known.
pub bytes_at-parts :
    (a n k : ℕ) (m : ℕ → ℕ) {xs ys : List ℕ}
    → bytes_at a n m ≡ xs
    → bytes_at (a + n) k m ≡ ys
    → bytes_at a (n + k) m ≡ xs ++ ys
bytes_at-parts a n k m e f = bytes_at-append a n k m ∙ rw (e, f) refl

pub get_or-bytes_at :
    (a n : ℕ) (m : ℕ → ℕ) (i : ℕ) → i < n → get_or (bytes_at a n m) i 0 ≡ m (a + i)
get_or-bytes_at a zero m i h = elim h [ ]
get_or-bytes_at a (suc n) m zero h = let e : a ≡ a + 0 = omega arith in ap m e
get_or-bytes_at a (suc n) m (suc i) h =
    let e : suc a + i ≡ a + suc i = omega arith in
    get_or-bytes_at (suc a) n m i (omega arith) ∙ ap m e

abbrev pub min : ℕ → ℕ → ℕ
min a b = if leb a b then a else b

-- The first n bytes, and the rest.
abbrev pub take : ℕ → List ℕ → List ℕ
take zero xs = []
take (suc n) [] = []
take (suc n) (x ∷ xs) = x ∷ take n xs

abbrev pub drop : ℕ → List ℕ → List ℕ
drop zero xs = xs
drop (suc n) [] = []
drop (suc n) (x ∷ xs) = drop n xs

pub length-take : (n : ℕ) (xs : List ℕ) → length (take n xs) ≡ min n (length xs)
length-take zero xs = ground arith
length-take (suc n) [] = ground arith
length-take (suc n) (x ∷ xs) = ground (arith, length-take n xs)

pub length-drop : (n : ℕ) (xs : List ℕ) → length (drop n xs) ≡ length xs - min n (length xs)
length-drop zero xs = ground arith
length-drop (suc n) [] = ground arith
length-drop (suc n) (x ∷ xs) = ground (arith, length-drop n xs)

pub take-drop : (n : ℕ) (xs : List ℕ) → take n xs ++ drop n xs ≡ xs
take-drop zero xs = refl
take-drop (suc n) [] = refl
take-drop (suc n) (x ∷ xs) = ap (λ ys. x ∷ ys) (take-drop n xs)

pub take_all : (n : ℕ) (xs : List ℕ) → length xs ≤ n → take n xs ≡ xs
take_all zero [] h = refl
take_all zero (x ∷ xs) h = absurd (omega arith)
take_all (suc n) [] h = refl
take_all (suc n) (x ∷ xs) h = ap (λ ys. x ∷ ys) (take_all n xs (omega arith))

pub drop_all : (n : ℕ) (xs : List ℕ) → length xs ≤ n → drop n xs ≡ []
drop_all zero [] h = refl
drop_all zero (x ∷ xs) h = absurd (omega arith)
drop_all (suc n) [] h = refl
drop_all (suc n) (x ∷ xs) h = drop_all n xs (omega arith)
