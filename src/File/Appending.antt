-- ===== src/File/Appending.antt =====
-- file.c: a write at the end of a file, and a read of what it wrote.
use chunkfs.Base.{
  ℕ, zero, suc, ◌+◌, ◌≤◌, ◌<◌, ◌≡◌, refl, sym, ap, ◌∙◌, List, [], ◌∷◌, ◌++◌, arith, length, take,
}
use chunkfs.Kernel.{ok}
use chunkfs.Client.{Dentry, ClientFile, Client}
use chunkfs.Cont.{Continuation, Head, World}
use chunkfs.Walk.Search.{end_from}
use chunkfs.File.{OpenFile, Returned, chunkfs_read, chunkfs_write}
use chunkfs.File.Overwriting.{Bytes, window, overwrite, window-shift}
use chunkfs.File.View.{delivered, accepted}
use chunkfs.File.Refines.{Holds, chunkfs_read_refines}
use chunkfs.File.Written.{length-take}
use chunkfs.File.Longer.{longer, inodes_of}
use chunkfs.File.Grows.{Grows}
use chunkfs.File.Appended.{old, AppendSo, chunkfs_write_end_refines}

window-agree :
    (f g : Bytes) (pos n : ℕ)
    → ((i : ℕ) → i < n → f (pos + i) ≡ g (pos + i))
    → window f pos n ≡ window g pos n
window-agree f g pos n h =
    let here : pos ≡ 0 + pos = omega arith in
    ap (λ q. window f q n) here
    ∙ window-shift f g 0 pos n (λ i lt. ap (λ q. f (q + i)) (sym here) ∙ h i lt)

-- The window at the place of a write has the bytes written.
window-overwrite :
    (g : Bytes) (pos n : ℕ) (bs : List ℕ)
    → n ≤ length bs
    → window (overwrite g pos bs) pos n ≡ take n bs
window-overwrite g pos zero bs h = refl
window-overwrite g pos (suc n) [] h = absurd (omega arith)
window-overwrite g pos (suc n) (b ∷ bs) h =
    let first : overwrite g pos (b ∷ bs) pos ≡ b = ground arith in
    let rest : window (overwrite g pos (b ∷ bs)) (pos + 1) n ≡ take n bs =
      window-agree (overwrite g pos (b ∷ bs)) (overwrite g (pos + 1) bs) (pos + 1) n
        (λ i lt. ground arith)
      ∙ window-overwrite g (pos + 1) n bs (omega arith) in
    rw (first, rest) refl

take-take : (n k : ℕ) (bs : List ℕ) → n ≤ k → take n (take k bs) ≡ take n bs
take-take zero k bs h = refl
take-take (suc n) zero bs h = absurd (omega arith)
take-take (suc n) (suc k) [] h = refl
take-take (suc n) (suc k) (b ∷ bs) h = ap (λ xs. b ∷ xs) (take-take n k bs (omega arith))

module _ (c : Client) (held : c.State → Dentry → Bytes) (sizes : c.State → Dentry → ℕ) (head : Head)
    (fuel : ℕ) (before : List Continuation) (p : Continuation) where
  -- A read of what a write at the end left.
  read_back :
      (file : OpenFile) (bs : List ℕ) (len : ℕ) (fs : c.State) (w : World c.State) (k : ℕ)
      → AppendSo c held sizes head fuel before p fs bs k w.fs
      → len ≤ k
      → (y : Returned (List ℕ)) × (w' : World c.State) × (chunkfs_read c fuel head file len
            (end_from 0 (before ++ p ∷ []))
            w
          ≡ (ok y, w'))
        × (delivered y.result ≡ take (length (delivered y.result)) bs)
  read_back file bs len fs w k so le =
      let end_ = end_from 0 (before ++ p ∷ []) in
      let ns = longer before p so.next so.n in
      let (y, w', e, r) =
        chunkfs_read_refines c held sizes head fuel ns (inodes_of ns) file len end_ w so.holds in
      let n = length (delivered y.result) in
      (
        y,
        w',
        e,
        r.bytes
            ∙ ap (λ v. window v end_ n) so.bytes
            ∙ window-overwrite (old c held sizes head fuel before p fs) end_ n (take k bs)
                (omega (arith, r.most, length-take k bs so.most))
            ∙ take-take n k bs (omega (arith, r.most)),
      )

  -- A write of at most 40960 bytes at the very end of a file whose clients' files keep to their
  -- ranges (`Holds`), where it can grow (`Grows`), returns how many of the bytes it took. A read at
  -- that place of at most so many returns as well, and what it brings are the first of these bytes.
  pub append_read :
      (file file' : OpenFile) (bs : List ℕ) (len : ℕ) (w : World c.State) (f : ClientFile)
      (s : c.State)
      → Holds c held sizes head fuel (before ++ p ∷ []) (inodes_of (before ++ p ∷ [])) w.fs
      → Grows c held sizes head fuel before p w.fs f s
      → length bs ≤ 40960
      → let end_ = end_from 0 (before ++ p ∷ []) in
        (x : Returned ℕ) × (w' : World c.State) × (chunkfs_write c fuel head file bs end_ w
          ≡ (ok x, w'))
        × (len ≤ accepted x.result
            → (y : Returned (List ℕ)) × (w'' : World c.State) × (chunkfs_read c fuel head file' len
                  end_ w'
                ≡ (ok y, w''))
              × (delivered y.result ≡ take (length (delivered y.result)) bs))
  append_read file file' bs len w f s h g few =
      let (x, w', e, so) =
        chunkfs_write_end_refines c held sizes head fuel before p file bs w f s h g few in
      (x, w', e, λ le. read_back file' bs len w.fs w' (accepted x.result) so le)
