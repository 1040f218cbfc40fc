-- ===== src/Syscalls/FileStream/Reads.antt =====
-- A program that reads a file gets it in order.
use ckb_standalone_debugger.Prelude.{
  ℕ, zero, suc, ◌+◌, ◌≤◌, ◌≡◌, refl, ◌∙◌, ap, sym, inl, inr, Option, none, some, List, [], ◌∷◌,
  ◌++◌, append_assoc, append-nil, Bytes, length, take, drop, leb, Bool-cases, arith, subst,
}
use ckb_standalone_debugger.Syscalls.FileStream.{FileStream, new, read}

-- What one read adds to the data.
abbrev pub got : Option Bytes → Bytes
got none = []
got (some bs) = bs

-- Reads of these sizes, one after the other: all the data, and the stream after them.
unfoldable pub reads : List ℕ → FileStream → Bytes × FileStream
unfolding read
reads [] s = ([], s)
reads (count ∷ counts) s =
    let (bs, s') = read count s in let (rest, s'') = reads counts s' in (got bs ++ rest, s'')

take-nil : (n : ℕ) → take {A = ℕ} n [] ≡ []
take-nil zero = refl
take-nil (suc n) = refl

take-drop : (a b : ℕ) (xs : Bytes) → take a xs ++ take b (drop a xs) ≡ take (a + b) xs
take-drop zero b xs = let e : b ≡ 0 + b = omega arith in subst (λ n. take b xs ≡ take n xs) e refl
take-drop (suc a) b [] = take-nil b ∙ sym (take-nil (suc a + b))
take-drop (suc a) b (x ∷ xs) =
    let e : suc (a + b) ≡ suc a + b = omega arith in
    subst (λ n. x ∷ (take a xs ++ take b (drop a xs)) ≡ take n (x ∷ xs)) e
      (ap (λ l. x ∷ l) (take-drop a b xs))

read-take :
    (count : ℕ) (s : FileStream)
    → s.offset ≤ length s.content
    → (take s.offset s.content ++ got (read count s).0 ≡ take (read count s).1.offset s.content)
      × ((read count s).1.content ≡ s.content)
      × ((read count s).1.offset ≤ length s.content)
unfolding read
read-take count s h = elim (Bool-cases (leb (length s.content) s.offset)) [
  | inl over ↦ rw over (append-nil _, refl, h)
  | inr inside ↦ rw inside (take-drop s.offset _ s.content, refl, omega arith)
]

-- Reads from the start of a file give, together, exactly its bytes up to where the stream then
-- stands, which is within the file.
reads-take :
    (counts : List ℕ) (s : FileStream)
    → s.offset ≤ length s.content
    → (take s.offset s.content ++ (reads counts s).0 ≡ take (reads counts s).1.offset s.content)
      × ((reads counts s).1.offset ≤ length s.content)
unfolding reads
reads-take [] s h = (append-nil _, h)
reads-take (count ∷ counts) s h =
    let (now, same, within) = read-take count s h in
    let s' = (read count s).1 in
    let (later, last) = reads-take counts s' (rw same within) in
    (
      sym (append_assoc (take s.offset s.content) (got (read count s).0) (reads counts s').0)
          ∙ ap (λ l. l ++ (reads counts s').0) now
          ∙ (rw same at later),
      rw same at last,
    )

pub reads-new :
    (counts : List ℕ) (content : Bytes)
    → ((reads counts (new content)).0 ≡ take (reads counts (new content)).1.offset content)
      × ((reads counts (new content)).1.offset ≤ length content)
unfolding new
reads-new counts content = reads-take counts (new content) (omega arith)
