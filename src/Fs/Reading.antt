-- ===== src/Fs/Reading.antt =====
-- dcafs_read: successive reads of a file.
use dca.Common.{
  ℕ, ◌+◌, ◌-◌, ◌≤◌, ◌≡◌, refl, ◌∙◌, sym, ap, true, arith, Buffer, ◌++◌, min, leb, ltb, ok,
  if◌then◌else◌, length, take, drop, length-take, length-drop, take-append, take_split, drop-drop,
  Bool-cases, inl, inr,
}
use native.Mathlib.Nat.{add-zero, add_assoc}
use dca.Riot.{Riot}
use dca.State.{Globals, ◌>>=◌}
use dca.Db.Ops.{done}
use dca.Fs.{File, read_from, read, contents}

-- how many bytes a read returns, and which
abbrev pub count_at : ℕ → ℕ → ℕ → ℕ
count_at size off n = min n (size - off)

abbrev pub chunk : Buffer → ℕ → ℕ → ℕ → Buffer
chunk bytes size off n = take (count_at size off n) (drop off bytes)

if_min : (b a : ℕ) → (if ltb b a then b else a) ≡ min a b
if_min b a = ground arith

module _ (r : Riot) (bytes : Buffer) (size : ℕ) (fits : size ≤ length bytes) where
  length-chunk : (off n : ℕ) → length (chunk bytes size off n) ≡ count_at size off n
  length-chunk off n =
      omega (arith, length-take (count_at size off n) (drop off bytes), length-drop off bytes)

  -- What one read leaves: the bytes from the offset on, at most n and at most to the end of the
  -- contents, the offset behind them, and the rest of the buffer as it was.
  read_from-chunk :
      (f : File) (dest : Buffer) (n : ℕ) (g : Globals)
      → n ≤ length dest
      → read_from r (bytes, size) f dest n g
        ≡ ok (
          (
            record f { offset = f.offset + count_at size f.offset n },
            chunk bytes size f.offset n ++ drop (count_at size f.offset n) dest,
            count_at size f.offset n,
          ),
          g,
        )
  unfolding read_from
  read_from-chunk f dest n g room = elim (Bool-cases (leb size f.offset)) [
    | inl past ↦ (let e : count_at size f.offset n ≡ 0 = ground arith in rw (past, e, add-zero))
    | inr more ↦
        (let m = count_at size f.offset n in
          let inside : leb (f.offset + m) (length bytes) ≡ true = ground arith in
          let fit : leb m (length dest) ≡ true = ground arith in
          rw (more, ◌>>=◌, if_min (size - f.offset) n, inside, fit))
  ]

  chunk_split :
      (off n k : ℕ)
      → chunk bytes size off n ++ chunk bytes size (off + count_at size off n) k
        ≡ chunk bytes size off (n + k)
  chunk_split off n k =
      let m = count_at size off n in
      rw (← drop-drop off m (off + m) bytes refl) (
        take_split m (count_at size (off + m) k) (count_at size off (n + k)) (drop off bytes)
          (omega arith))

module _ (r : Riot) (bytes : Buffer) (size : ℕ) (fits : size ≤ length bytes) where
  -- the file, the buffer and the count that a read of n bytes leaves, if it returns m bytes
  abbrev pub after : File → Buffer → ℕ → ℕ → File × Buffer × ℕ
  after f dest n m =
      (record f { offset = f.offset + m }, chunk bytes size f.offset n ++ drop m dest, m)

  pub read-chunk :
      (f : File) (dest : Buffer) (n : ℕ) (g : Globals)
      → contents r f.node g ≡ ok (done (bytes, size), g)
      → n ≤ length dest
      → read r f dest n g ≡ ok (done (after f dest n (count_at size f.offset n)), g)
  unfolding read
  read-chunk f dest n g same room =
      rw (◌>>=◌, same, read_from-chunk r bytes size fits f dest n g room)

  pub take-chunk :
      (off n : ℕ) (rest : Buffer)
      → take (count_at size off n) (chunk bytes size off n ++ rest) ≡ chunk bytes size off n
  take-chunk off n rest =
      take-append (count_at size off n) (chunk bytes size off n) rest
        (length-chunk r bytes size fits off n)

-- Where the contents are the same at each call and do not change the variables, two successive
-- reads of n and of k bytes give the same bytes, the same number of them and the same file as one
-- read of n + k bytes. Each buffer has the room that is asked for, and the contents lie within
-- their array.
pub read-read :
    (r : Riot) (f : File) (bytes : Buffer) (size : ℕ) (g : Globals) (a b c : Buffer) (n k : ℕ)
    → contents r f.node g ≡ ok (done (bytes, size), g)
    → size ≤ length bytes
    → n ≤ length a
    → k ≤ length b
    → n + k ≤ length c
    → (f₁ : File) × (f₂ : File) × (a' : Buffer) × (b' : Buffer) × (c' : Buffer) × (i : ℕ) × (j : ℕ)
      × (read r f a n g ≡ ok (done (f₁, a', i), g))
      × (read r f₁ b k g ≡ ok (done (f₂, b', j), g))
      × (read r f c (n + k) g ≡ ok (done (f₂, c', i + j), g))
      × (take i a' ++ take j b' ≡ take (i + j) c')
read-read r f bytes size g a b c n k same fits ra rb rc =
    let off = f.offset in
    let i = count_at size off n in
    let j = count_at size (off + i) k in
    let whole : count_at size off (n + k) ≡ i + j = omega arith in
    let f₁ = record f { offset = off + i } in
    (
      f₁,
      record f { offset = off + i + j },
      chunk bytes size off n ++ drop i a,
      chunk bytes size (off + i) k ++ drop j b,
      chunk bytes size off (n + k) ++ drop (count_at size off (n + k)) c,
      i,
      j,
      read-chunk r bytes size fits f a n g same ra,
      read-chunk r bytes size fits f₁ b k g same rb,
      read-chunk r bytes size fits f c (n + k) g same rc
          ∙ ap
              (λ (m : ℕ). ok (
                done (
                  record f { offset = m },
                  chunk bytes size off (n + k) ++ drop (count_at size off (n + k)) c,
                  count_at size off (n + k),
                ),
                g,
              ))
              (ap (λ (m : ℕ). off + m) whole ∙ sym (add_assoc off i j))
          ∙ ap
              (λ (m : ℕ). ok (
                done (
                  record f { offset = off + i + j },
                  chunk bytes size off (n + k) ++ drop (count_at size off (n + k)) c,
                  m,
                ),
                g,
              ))
              whole,
      rw
          (
            take-chunk r bytes size fits off n (drop i a),
            take-chunk r bytes size fits (off + i) k (drop j b),
            ← whole,
            take-chunk r bytes size fits off (n + k) (drop (count_at size off (n + k)) c),
          )
          (chunk_split r bytes size fits off n k),
    )
