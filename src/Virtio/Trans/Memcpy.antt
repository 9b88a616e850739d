-- ===== src/Virtio/Trans/Memcpy.antt =====
-- Which bytes vt_memcpy copies.
use heterogeneous_multicore.Base.{
  ℕ, zero, suc, ◌+◌, ◌-◌, ◌*◌, ◌/◌, ◌%◌, ◌≤◌, ◌<◌, ◌≡◌, refl, sym, ap, subst, ◌∙◌, true, ◌⊎◌, inl,
  inr, arith, ◌==◌, leb, ltb, lt→ltb, ltb→lt, if◌then◌else◌, Bool-cases,
}
use heterogeneous_multicore.Virtio.Trans.{memcpy, copy_words, vt_memcpy}

-- Two regions of a length that do not meet.
abbrev pub Apart : ℕ → ℕ → ℕ → Type 0
Apart d s len = (d + len ≤ s) ⊎ (s + len ≤ d)

-- In the second memory, n bytes from s on have been copied to d, and nothing else has changed.
pub record Copied (d s n : ℕ) (mem mem' : ℕ → ℕ) : Type 0 where
  pub inside : (i : ℕ) → i < n → mem' (d + i) ≡ mem (s + i)
  pub outside : (a : ℕ) → (a < d) ⊎ (d + n ≤ a) → mem' a ≡ mem a

memcpy-Copied : (d s n : ℕ) (mem : ℕ → ℕ) → Copied d s n mem (memcpy d s n mem)
memcpy-Copied d s n mem = record {
  inside = λ i less. inside i less;
  outside = λ a out. outside a out;
}
  where
    back : (i : ℕ) → d + i - d ≡ i
    back i = omega arith

    within : (i : ℕ) → leb d (d + i) ≡ true
    within i = ground arith

    inside : (i : ℕ) → i < n → memcpy d s n mem (d + i) ≡ mem (s + i)
    inside i less = rw (within i, lt→ltb (d + i) (d + n) (omega arith), back i) refl

    outside : (a : ℕ) → (a < d) ⊎ (d + n ≤ a) → memcpy d s n mem a ≡ mem a
    outside a (inl below) = ground arith
    outside a (inr above) = ground arith

Copied-then :
    (d s k : ℕ) (m m1 m2 : ℕ → ℕ)
    → Apart d s (4 + k)
    → Copied d s 4 m m1
    → Copied (d + 4) (s + 4) k m1 m2
    → Copied d s (4 + k) m m2
Copied-then d s k m m1 m2 apart word rest = record {
  inside = λ i less. elim (Bool-cases (ltb i 4)) [
    | inl small ↦
        let below : i < 4 = ltb→lt i 4 small in
        rest.outside (d + i) (inl (omega (arith, below))) ∙ word.inside i below
    | inr large ↦
        let above : 4 ≤ i = ground arith in
        ap m2 (from_4 d i above)
        ∙ rest.inside (i - 4) (omega (arith, above))
        ∙ word.outside (s + 4 + (i - 4)) (source i above less apart)
        ∙ ap m (sym (from_4 s i above))
  ];
  outside = λ a out. rest.outside a (beyond a out) ∙ word.outside a (around a out);
}
  where
    from_4 : (x i : ℕ) → 4 ≤ i → x + i ≡ x + 4 + (i - 4)
    from_4 x i above = omega arith

    source :
        (i : ℕ)
        → 4 ≤ i
        → i < 4 + k
        → Apart d s (4 + k)
        → (s + 4 + (i - 4) < d) ⊎ (d + 4 ≤ s + 4 + (i - 4))
    source i above less (inl before) = inr (omega arith)
    source i above less (inr after) = inl (omega arith)

    beyond : (a : ℕ) → (a < d) ⊎ (d + (4 + k) ≤ a) → (a < d + 4) ⊎ (d + 4 + k ≤ a)
    beyond a (inl below) = inl (omega arith)
    beyond a (inr above) = inr (omega arith)

    around : (a : ℕ) → (a < d) ⊎ (d + (4 + k) ≤ a) → (a < d) ⊎ (d + 4 ≤ a)
    around a (inl below) = inl below
    around a (inr above) = inr (omega arith)

Apart-rest : (d s k : ℕ) → Apart d s (4 + k) → Apart (d + 4) (s + 4) k
Apart-rest d s k (inl before) = inl (omega arith)
Apart-rest d s k (inr after) = inr (omega arith)

copy_words-Copied :
    (n d s : ℕ) (mem : ℕ → ℕ) → Apart d s (n * 4) → Copied d s (n * 4) mem (copy_words n d s mem)
unfolding copy_words
copy_words-Copied zero d s mem apart = record {
  inside = λ i less. absurd (omega arith);
  outside = λ a out. refl;
}
copy_words-Copied (suc n) d s mem apart =
    let next : suc n * 4 ≡ 4 + n * 4 = omega arith in
    let apart' = subst (Apart d s) next apart in
    let word = memcpy-Copied d s 4 mem in
    let rest =
      copy_words-Copied n (d + 4) (s + 4) (memcpy d s 4 mem) (Apart-rest d s (n * 4) apart') in
    rw next (Copied-then d s (n * 4) mem _ _ apart' word rest)

Apart-less : (d s n k : ℕ) → n ≤ k → Apart d s k → Apart d s n
Apart-less d s n k less (inl before) = inl (omega arith)
Apart-less d s n k less (inr after) = inr (omega arith)

-- Between regions that do not meet, vt_memcpy copies the first bytes and leaves all others as they
-- were. It copies them all where the two addresses differ modulo 4, but only the whole words where
-- they do not: the last len % 4 bytes are then not copied.
pub vt_memcpy-Copied :
    (dts src len : ℕ) (mem : ℕ → ℕ)
    → Apart dts src len
    → Copied dts src
        (if dts % 4 == src % 4 then len - len % 4 else len)
        mem
        (vt_memcpy dts src len mem)
unfolding vt_memcpy
vt_memcpy-Copied dts src len mem apart = elim (Bool-cases (len == 0)) [
  | inl none_left ↦
      rw none_left
        (record { inside = λ i less. absurd (ground (arith, less)); outside = λ a out. refl })
  | inr some_left ↦ elim (Bool-cases (dts % 4 == src % 4)) [
    | inr e ↦ rw (some_left, e) (memcpy-Copied dts src len mem)
    | inl e ↦
        let words : len - len % 4 ≡ len / 4 * 4 = omega arith in
        rw (some_left, e, words)
          (copy_words-Copied (len / 4) dts src mem (Apart-less dts src _ len (omega arith) apart))
  ]
]
