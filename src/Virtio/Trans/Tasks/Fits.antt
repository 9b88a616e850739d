-- ===== src/Virtio/Trans/Tasks/Fits.antt =====
-- Copies that stay within the buffer of a task.
use heterogeneous_multicore.Base.{
  ℕ, zero, suc, ◌≤◌, ◌≡◌, refl, ap, true, List, [], ◌∷◌, some, arith, length, get_elem?,
}
use heterogeneous_multicore.Virtio.Ring.{Desc, Iovec}
use heterogeneous_multicore.Virtio.Ring.Avail.{vec}
use heterogeneous_multicore.Virtio.Iov.{entries}
use heterogeneous_multicore.Virtio.Trans.Tasks.{max_vt_buf_size, within_buf}

-- Descriptors no longer than the task's buffer, in some chains.
abbrev pub AllShort : List Desc → Type 0
AllShort [] = Unit
AllShort (d ∷ ds) = (d.len ≤ max_vt_buf_size) × AllShort ds

abbrev pub AllFit : List (ℕ × List Desc) → Type 0
AllFit [] = Unit
AllFit ((h, ds) ∷ cs) = AllShort ds × AllFit cs

pub within_buf-AllShort :
    (app_buf n : ℕ) (ds : List Desc) (iov : ℕ → Iovec)
    → n ≤ length ds
    → ((k : ℕ) (d : Desc) → get_elem? ds k ≡ some d → iov k ≡ vec d)
    → AllShort ds
    → within_buf app_buf (entries n iov) ≡ true
within_buf-AllShort app_buf zero ds iov le at short = refl
within_buf-AllShort app_buf (suc n) [] iov le at short = absurd (omega arith)
within_buf-AllShort app_buf (suc n) (d ∷ ds) iov le at (first, rest) =
    let one : (iov 0).len ≡ d.len = ap (λ (v : Iovec). v.len) (at 0 d refl) in
    let more =
      within_buf-AllShort app_buf n ds (λ i. iov (suc i)) (omega arith) (λ k e h. at (suc k) e h)
        rest in
    ground (arith, one, first, more)
