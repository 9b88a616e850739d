-- ===== src/Ptp/Tag/Laws.antt =====
-- What the tags do to the bytes of a frame.
use heterogeneous_multicore.Base.{
  ℕ, zero, suc, ◌+◌, ◌-◌, ◌≤◌, ◌<◌, ◌≡◌, refl, sym, ap, ◌∙◌, true, false, ◌&&◌, List, ◌++◌, arith,
  length, leb, ltb, if◌then◌else◌, update, ◌^◌, Bool, inl, inr, ◌⊎◌,
}
use heterogeneous_multicore.Base.Bytes.{
  bytes_at, put-other, bytes_at-put, bytes_at-same, bytes_at-moved, bytes_at-parts,
}
use heterogeneous_multicore.Ptp.Tag.{
  Frame, mac_addr_total_length, move_forward, move_backward, insert_bytes, remove_tag,
}

-- The regions that the two loops write.
move_forward-at :
    (n d k : ℕ) (mem : ℕ → ℕ) (a : ℕ)
    → 0 < k
    → k ≤ d
    → move_forward n d k mem a
      ≡ (if leb (d - k) a && ltb (a + k) (d + n) then mem (a + k) else mem a)
unfolding move_forward
move_forward-at zero d k mem a h le = ground arith
move_forward-at (suc n) d k mem a h le =
    ground (
      arith,
      move_forward-at n (suc d) k (update mem (d - k) (mem d)) a,
      λ (e : a + k ≡ d). ap mem e,
    )

move_backward-at :
    (n first k : ℕ) (mem : ℕ → ℕ) (a : ℕ)
    → 0 < k
    → move_backward n first k mem a
      ≡ (if leb (first + k) a && ltb a (first + k + n) then mem (a - k) else mem a)
unfolding move_backward
move_backward-at zero first k mem a h = ground arith
move_backward-at (suc n) first k mem a h =
    ground (arith, move_backward-at n first k (update mem (first + n + k) (mem (first + n))) a)

-- The bytes of a frame.
abbrev pub content : Frame → List ℕ
content f = bytes_at f.data_addr f.data_len f.mem

-- The room that a tag takes and the frame it goes into.
abbrev pub Fits : List ℕ → Frame → Type 0
Fits tag f =
    (0 < length tag)
    × (length tag ≤ f.data_addr)
    × (mac_addr_total_length ≤ f.data_len)
    × (f.data_len + length tag < 2 ^ 32)

module _ (tag : List ℕ) (f : Frame) (fits : Fits tag f) where
  inserted_macs :
      bytes_at (f.data_addr - length tag) mac_addr_total_length (insert_bytes tag f).mem
      ≡ bytes_at f.data_addr mac_addr_total_length f.mem
  unfolding insert_bytes
  inserted_macs =
      bytes_at-moved (f.data_addr - length tag) f.data_addr mac_addr_total_length f.mem
        (insert_bytes tag f).mem
        λ i h.
          let k = length tag in
          let a = f.data_addr - k + i in
          let moved = move_forward mac_addr_total_length f.data_addr k f.mem in
          let there : a + k ≡ f.data_addr + i = omega arith in
          put-other (f.data_addr + mac_addr_total_length - k) tag moved a (inl (omega arith))
          ∙ ground
              (arith, move_forward-at mac_addr_total_length f.data_addr k f.mem a, ap f.mem there)

  pub inserted_tag :
      bytes_at
        (f.data_addr - length tag + mac_addr_total_length)
        (length tag)
        (insert_bytes tag f).mem
      ≡ tag
  unfolding insert_bytes
  inserted_tag =
      let k = length tag in
      let at : f.data_addr - k + mac_addr_total_length ≡ f.data_addr + mac_addr_total_length - k =
        omega arith in
      rw at (bytes_at-put (f.data_addr + mac_addr_total_length - k) tag _)

  pub kept :
      (a : ℕ)
      → (a < f.data_addr - length tag) ⊎ (f.data_addr + mac_addr_total_length ≤ a)
      → (insert_bytes tag f).mem a ≡ f.mem a
  unfolding insert_bytes
  kept a out =
      let k = length tag in
      let moved = move_forward mac_addr_total_length f.data_addr k f.mem in
      put-other (f.data_addr + mac_addr_total_length - k) tag moved a (beyond out)
      ∙ same out (move_forward-at mac_addr_total_length f.data_addr k f.mem a fits.0 fits.1)
    where
      beyond :
          (a < f.data_addr - length tag) ⊎ (f.data_addr + mac_addr_total_length ≤ a)
          → (a < f.data_addr + mac_addr_total_length - length tag)
            ⊎ (f.data_addr + mac_addr_total_length - length tag + length tag ≤ a)
      beyond (inl low) = inl (omega arith)
      beyond (inr high) = inr (omega arith)

      same :
          (a < f.data_addr - length tag) ⊎ (f.data_addr + mac_addr_total_length ≤ a)
          → let m = move_forward mac_addr_total_length f.data_addr (length tag) f.mem in
            m a ≡ (
              if leb (f.data_addr - length tag) a
                && ltb (a + length tag) (f.data_addr + mac_addr_total_length)
              then f.mem (a + length tag)
              else f.mem a)
            → m a ≡ f.mem a
      same (inl low) e = e ∙ ground arith
      same (inr high) e = e ∙ ground arith

  inserted_rest :
      (n : ℕ)
      → bytes_at (f.data_addr + mac_addr_total_length) n (insert_bytes tag f).mem
        ≡ bytes_at (f.data_addr + mac_addr_total_length) n f.mem
  inserted_rest n =
      bytes_at-same (f.data_addr + mac_addr_total_length) n f.mem (insert_bytes tag f).mem
        λ b low high. kept b (inr low)

  -- A tag goes between the addresses and the rest of the frame.
  pub insert_bytes-content :
      content (insert_bytes tag f)
      ≡ bytes_at f.data_addr mac_addr_total_length f.mem
        ++ tag
        ++ bytes_at (f.data_addr + mac_addr_total_length) (f.data_len - mac_addr_total_length) f.mem
  insert_bytes-content =
      let k = length tag in
      let m = (insert_bytes tag f).mem in
      let a = f.data_addr - k in
      let n = f.data_len - mac_addr_total_length in
      let all : (insert_bytes tag f).data_len ≡ mac_addr_total_length + (k + n) =
        unfold insert_bytes in omega arith in
      let start : (insert_bytes tag f).data_addr ≡ a = unfold insert_bytes in refl in
      let after : a + mac_addr_total_length + k ≡ f.data_addr + mac_addr_total_length =
        omega arith in
      ap (λ x. bytes_at x (insert_bytes tag f).data_len m) start
      ∙ ap (λ x. bytes_at a x m) all
      ∙ bytes_at-parts a mac_addr_total_length (k + n) m inserted_macs (
          bytes_at-parts (a + mac_addr_total_length) k n m inserted_tag
            (ap (λ x. bytes_at x n m) after ∙ inserted_rest n))

-- Taking out a tag of t bytes: the addresses go up and what follows the tag stays.
module _ (t : ℕ) (f : Frame) (tagged : 0 < t) (long : mac_addr_total_length + t < f.data_len) where
  pub remove_tag-content :
      (content (remove_tag f t).0
        ≡ bytes_at f.data_addr mac_addr_total_length f.mem
          ++ bytes_at
              (f.data_addr + mac_addr_total_length + t)
              (f.data_len - t - mac_addr_total_length)
              f.mem)
      × ((remove_tag f t).1 ≡ true)
  unfolding remove_tag
  remove_tag-content =
      let n = f.data_len - t - mac_addr_total_length in
      let a = f.data_addr + t in
      let m = move_backward mac_addr_total_length f.data_addr t f.mem in
      let passes : leb f.data_len (mac_addr_total_length + t) ≡ false = ground arith in
      let all : f.data_len - t ≡ mac_addr_total_length + n = omega arith in
      let after : a + mac_addr_total_length ≡ f.data_addr + mac_addr_total_length + t =
        omega arith in
      let macs : bytes_at a mac_addr_total_length m
          ≡ bytes_at f.data_addr mac_addr_total_length f.mem =
        bytes_at-moved a f.data_addr mac_addr_total_length f.mem m λ i h.
          let there : a + i - t ≡ f.data_addr + i = omega arith in
          ground (
            arith,
            move_backward-at mac_addr_total_length f.data_addr t f.mem (a + i),
            ap f.mem there,
          ) in
      let rest : bytes_at (f.data_addr + mac_addr_total_length + t) n m
          ≡ bytes_at (f.data_addr + mac_addr_total_length + t) n f.mem =
        bytes_at-same (f.data_addr + mac_addr_total_length + t) n f.mem m λ b low high.
          ground (arith, move_backward-at mac_addr_total_length f.data_addr t f.mem b) in
      let moved : Frame = record { mem = m; data_addr = a; data_len = f.data_len - t } in
      (
        ap
              (λ (b : Bool).
                let r : Frame × Bool = if b then (f, false) else (moved, true) in content r.0)
              passes
            ∙ ap (λ x. bytes_at a x m) all
            ∙ bytes_at-parts a mac_addr_total_length n m macs
                (ap (λ x. bytes_at x n m) after ∙ rest),
        rw passes,
      )

removed_addr :
    (t : ℕ) (f : Frame) → (remove_tag f t).1 ≡ true → (remove_tag f t).0.data_addr ≡ f.data_addr + t
unfolding remove_tag
removed_addr t f e = ground arith

removed_len :
    (t : ℕ) (f : Frame) → (remove_tag f t).1 ≡ true → (remove_tag f t).0.data_len ≡ f.data_len - t
unfolding remove_tag
removed_len t f e = ground arith

-- A tag that is put into a frame with something beyond its addresses and taken out again leaves the
-- frame as it was: where it begins, its length and each of its bytes.
pub remove_tag-insert_bytes :
    (tag : List ℕ) (f : Frame)
    → Fits tag f
    → mac_addr_total_length < f.data_len
    → let (g, done) = remove_tag (insert_bytes tag f) (length tag) in
      (done ≡ true)
      × (g.data_addr ≡ f.data_addr)
      × (g.data_len ≡ f.data_len)
      × (content g ≡ content f)
remove_tag-insert_bytes tag f fits more =
    let k = length tag in
    let h = insert_bytes tag f in
    let n = f.data_len - mac_addr_total_length in
    let start : h.data_addr ≡ f.data_addr - k = unfold insert_bytes in refl in
    let all : h.data_len ≡ f.data_len + k = unfold insert_bytes in omega arith in
    let (bytes, done) = remove_tag-content k h fits.0 (omega arith) in
    let after : f.data_addr - k + mac_addr_total_length + k ≡ f.data_addr + mac_addr_total_length =
      omega arith in
    let long : f.data_len + k - k - mac_addr_total_length ≡ n = omega arith in
    let whole : mac_addr_total_length + n ≡ f.data_len = omega arith in
    (
      done,
      removed_addr k h done ∙ omega arith,
      removed_len k h done ∙ omega arith,
      bytes
          ∙ ap
              (λ x.
                bytes_at x mac_addr_total_length h.mem
                ++ bytes_at (x + mac_addr_total_length + k) (h.data_len - k - mac_addr_total_length)
                    h.mem)
              start
          ∙ ap
              (λ x.
                bytes_at (f.data_addr - k) mac_addr_total_length h.mem
                ++ bytes_at (f.data_addr - k + mac_addr_total_length + k)
                    (x - k - mac_addr_total_length) h.mem)
              all
          ∙ sym (
              bytes_at-parts f.data_addr mac_addr_total_length n f.mem
                (sym (inserted_macs tag f fits))
                (sym (
                  ap (λ x. bytes_at x (f.data_len + k - k - mac_addr_total_length) h.mem) after
                  ∙ ap (λ x. bytes_at (f.data_addr + mac_addr_total_length) x h.mem) long
                  ∙ inserted_rest tag f fits n)))
          ∙ ap (λ x. bytes_at f.data_addr x f.mem) whole,
    )
