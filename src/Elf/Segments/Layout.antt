-- ===== src/Elf/Segments/Layout.antt =====
-- How segments lie in memory, and a memory that reading leaves as it is.
use ckb_standalone_debugger.Prelude.{
  ℕ, zero, suc, ◌+◌, ◌-◌, ◌*◌, ◌^◌, ◌<◌, ◌≤◌, ◌≡◌, ◌≢◌, refl, sym, ap, suc-add, ◌∙◌, true, false,
  List, [], ◌∷◌, ◌++◌, append_assoc, Bytes, length, replicate, ok, arith,
}
use ckb_standalone_debugger.Elf.Segments.{Segment, Paged}

-- The bytes that a loader sees below an address, with the segments in place and zeros elsewhere.
-- The last segment comes first.
abbrev pub flat : List Segment → ℕ → Bytes
flat [] upto = replicate upto 0
flat (s ∷ rest) upto =
    (flat rest s.start ++ s.bytes) ++ replicate (upto - (s.start + length s.bytes)) 0

-- The segments lie apart, below an address, and none is empty.
abbrev pub Ordered : List Segment → ℕ → Type 0
Ordered [] upto = Unit
Ordered (s ∷ rest) upto =
    (0 < length s.bytes) × (s.start + length s.bytes ≤ upto) × Ordered rest s.start

replicate-add : (a b : ℕ) → replicate {A = ℕ} (a + b) 0 ≡ replicate a 0 ++ replicate b 0
replicate-add zero b = let e : 0 + b ≡ b = omega arith in ap (λ n. replicate n 0) e
replicate-add (suc a) b = rw suc-add (ap (λ l. 0 ∷ l) (replicate-add a b))

pub length-replicate : (n : ℕ) → length (replicate {A = ℕ} n 0) ≡ n
length-replicate zero = refl
length-replicate (suc n) = ap suc (length-replicate n)

pub flat-add :
    (segments : List Segment) (upto more : ℕ)
    → Ordered segments upto
    → flat segments (upto + more) ≡ flat segments upto ++ replicate more 0
flat-add [] upto more h = replicate-add upto more
flat-add (s ∷ rest) upto more h =
    let room : upto + more - (s.start + length s.bytes) ≡ upto - (s.start + length s.bytes) + more =
      omega arith in
    ap (λ n. (flat rest s.start ++ s.bytes) ++ replicate n 0) room
    ∙ ap (λ l. (flat rest s.start ++ s.bytes) ++ l)
        (replicate-add (upto - (s.start + length s.bytes)) more)
    ∙ sym (append_assoc (flat rest s.start ++ s.bytes) _ (replicate more 0))

pub Ordered-add :
    (segments : List Segment) (upto more : ℕ)
    → Ordered segments upto
    → Ordered segments (upto + more)
Ordered-add [] upto more h = tt
Ordered-add (s ∷ rest) upto more h = (h.0, omega arith, h.2)

-- A memory that reading leaves as it is: the word at each address, and the flags of each page.
-- Pages are whole words, and all of the memory is below 2^64.
pub record Pure {M : Type 0} (mem : Paged M) (m : M) : Type 0 where
  pub word : ℕ → ℕ
  pub flags : ℕ → ℕ
  pub page_words : ℕ
  pub load64_is : (a : ℕ) → mem.load64 a m ≡ (ok (word a), m)
  pub fetch_flag_is : (page : ℕ) → mem.fetch_flag page m ≡ (ok (flags page), m)
  pub page_size_is : mem.page_size ≡ 8 * page_words
  pub fits : mem.pages * mem.page_size < 2 ^ 64

pub mul_eight : (p k : ℕ) → p * (8 * k) ≡ 8 * (p * k)
mul_eight p k = grind arith

pub one_more : (p left k : ℕ) → p * k + k ≤ (p + suc left) * k
one_more p left k = grind arith

pub next_page : (p k : ℕ) → p * k + k ≡ (p + 1) * k
next_page p k = grind arith

pub false-ne-true : false ≢ true
false-ne-true = cc
