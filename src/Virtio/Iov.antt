-- ===== src/Virtio/Iov.antt =====
-- Copying to and from I/O vectors: include/common/iovec.h. The lengths of entries are of 32 bits, as
-- those of the descriptors that they come from.
pub mod Laws
use heterogeneous_multicore.Base.{
  ℕ, zero, suc, ◌+◌, ◌-◌, ◌≤◌, ◌<◌, ◌≡◌, refl, sym, ap, ◌∙◌, Bool, true, false, ◌⊎◌, inl, inr, List,
  [], ◌∷◌, ◌++◌, Option, none, some, arith, length, leb, ltb, if◌then◌else◌, Bool-cases, ◌==◌,
  ==_refl, ==-ne, ◌≢◌,
}
use heterogeneous_multicore.Base.Bytes.{put, bytes_at, take, drop, min}
use heterogeneous_multicore.Virtio.Ring.{Iovec}

-- The first n entries of a vector.
abbrev pub entries : ℕ → (ℕ → Iovec) → List Iovec
entries zero iov = []
entries (suc n) iov = iov 0 ∷ entries n (λ i. iov (suc i))

unfoldable pub iov_size : List Iovec → ℕ
iov_size [] = 0
iov_size (v ∷ iov) = v.len + iov_size iov

abbrev pub advanced : Iovec → ℕ → Iovec
advanced v n = record { addr = v.addr + n; len = v.len - n }

-- The loops, with the entries as they leave them; none where the vector is too short for the data.
abbrev entry_kept : Iovec → Option (List Iovec × (ℕ → ℕ)) → Option (List Iovec × (ℕ → ℕ))
entry_kept v none = none
entry_kept v (some (iov, mem)) = some (v ∷ iov, mem)

unfoldable pub memcpy_toiovec : List Iovec → List ℕ → (ℕ → ℕ) → Option (List Iovec × (ℕ → ℕ))
memcpy_toiovec iov [] mem = some (iov, mem)
memcpy_toiovec [] (x ∷ xs) mem = none
memcpy_toiovec (v ∷ iov) (x ∷ xs) mem =
    let copied = take v.len (x ∷ xs) in
    entry_kept (advanced v (length copied))
      (memcpy_toiovec iov (drop v.len (x ∷ xs)) (put v.addr copied mem))

abbrev joined : Iovec → List ℕ → Option (List Iovec × List ℕ) → Option (List Iovec × List ℕ)
joined v xs none = none
joined v xs (some (iov, ys)) = some (v ∷ iov, xs ++ ys)

unfoldable pub memcpy_fromiovec : List Iovec → ℕ → (ℕ → ℕ) → Option (List Iovec × List ℕ)
memcpy_fromiovec iov zero mem = some (iov, [])
memcpy_fromiovec [] (suc n) mem = none
memcpy_fromiovec (v ∷ iov) (suc n) mem =
    let copied = min v.len (suc n) in
    joined (advanced v copied) (bytes_at v.addr copied mem)
      (memcpy_fromiovec iov (suc n - copied) mem)
