-- ===== src/Converter/Tables/Strings.antt =====
-- The string table and the map of its indices.
use ckb_standalone_debugger.Prelude.{
  ℕ, ◌+◌, ◌≡◌, ◌⊎◌, refl, sym, ap, ◌∙◌, Bool, true, false, some, some-injective, List, [], ◌∷◌,
  ◌++◌, Bytes, length, length-append, append_assoc, get_elem?, if◌then◌else◌, bytes_eq,
  bytes_eq_refl, bytes_eq_sound, Bool-cases, inl, inr, subst,
}
use ckb_standalone_debugger.Converter.Tables.{Index, lookup, insert_all}

-- Whether a list has a string.
abbrev pub has : Bytes → List Bytes → Bool
has s [] = false
has s (t ∷ ts) = let later = has s ts in if bytes_eq t s then true else later

pub has-head : (s : Bytes) (ts : List Bytes) → has s (s ∷ ts) ≡ true
has-head s ts = rw (bytes_eq_refl s) refl

pub has-cons : (s t : Bytes) (ts : List Bytes) → has s ts ≡ true → has s (t ∷ ts) ≡ true
has-cons s t ts h = elim (Bool-cases (bytes_eq t s)) [
  | inl same ↦ rw same refl
  | inr other ↦ rw other h
]

pub has-append_left : (s : Bytes) (xs ys : List Bytes) → has s xs ≡ true → has s (xs ++ ys) ≡ true
has-append_left s [] ys h = absurd (cc h)
has-append_left s (x ∷ xs) ys h = elim (Bool-cases (bytes_eq x s)) [
  | inl same ↦ rw same refl
  | inr other ↦ rw other (has-append_left s xs ys (rw other at h))
]

pub has-append_right : (s : Bytes) (xs ys : List Bytes) → has s ys ≡ true → has s (xs ++ ys) ≡ true
has-append_right s [] ys h = h
has-append_right s (x ∷ xs) ys h = has-cons s x (xs ++ ys) (has-append_right s xs ys h)

-- A `HashSet` gives every string that was inserted.
pub record SetLaws (into_iter : List Bytes → List Bytes) : Type 0 where
  pub gives : (xs : List Bytes) (s : Bytes) → has s xs ≡ true → has s (into_iter xs) ≡ true

-- The map of the string table's indices: what it says of a string is where the string is.
abbrev pub Sound : List Bytes → Index → Type 0
Sound table index = (s : Bytes) (i : ℕ) → lookup index s ≡ some i → get_elem? table i ≡ some s

get_elem?-append :
    (pre rest : List Bytes) (s : Bytes) → get_elem? (pre ++ s ∷ rest) (length pre) ≡ some s
get_elem?-append [] rest s = refl
get_elem?-append (p ∷ pre) rest s = get_elem?-append pre rest s

pub lookup-cons :
    (t s : Bytes) (i j : ℕ) (index : Index)
    → lookup ((t, i) ∷ index) s ≡ some j
    → ((t ≡ s) × (i ≡ j)) ⊎ (lookup index s ≡ some j)
unfolding lookup
lookup-cons t s i j index e = elim (Bool-cases (bytes_eq t s)) [
  | inl same ↦ inl (bytes_eq_sound t s same, some-injective _ _ (rw same at e))
  | inr other ↦ inr (rw other at e)
]

lookup-Sound_cons :
    (table : List Bytes) (t : Bytes) (i : ℕ) (index : Index)
    → get_elem? table i ≡ some t
    → Sound table index
    → Sound table ((t, i) ∷ index)
lookup-Sound_cons table t i index here sound s j e = elim (lookup-cons t s i j index e) [
  | inl (same, index_is) ↦ subst (λ k. get_elem? table k ≡ some s) index_is (here ∙ ap some same)
  | inr before ↦ sound s j before
]

pub insert_all-Sound :
    (pre table : List Bytes) (index : Index)
    → Sound (pre ++ table) index
    → Sound (pre ++ table) (insert_all (length pre) table index)
unfolding insert_all
insert_all-Sound pre [] index sound = sound
insert_all-Sound pre (t ∷ table) index sound =
    let at_end : length (pre ++ t ∷ []) ≡ length pre + 1 = length-append pre (t ∷ []) in
    let whole : (pre ++ t ∷ []) ++ table ≡ pre ++ t ∷ table = append_assoc pre (t ∷ []) table in
    let next =
      lookup-Sound_cons (pre ++ t ∷ table) t (length pre) index (get_elem?-append pre table t)
        sound in
    rw (sym whole, sym at_end)
      (insert_all-Sound (pre ++ t ∷ []) table ((t, length pre) ∷ index) (rw whole next))

-- A string of the table, or of the map before, is found.
abbrev pub Found : Index → Bytes → Type 0
Found index s = (i : ℕ) × (lookup index s ≡ some i)

Found-cons : (index : Index) (t s : Bytes) (i : ℕ) → Found index s → Found ((t, i) ∷ index) s
unfolding lookup
Found-cons index t s i (j, e) = elim (Bool-cases (bytes_eq t s)) [
  | inl same ↦ (i, rw same refl)
  | inr other ↦ (j, rw other e)
]

insert_all-Found_before :
    (i : ℕ) (table : List Bytes) (index : Index) (s : Bytes)
    → Found index s
    → Found (insert_all i table index) s
unfolding insert_all
insert_all-Found_before i [] index s found = found
insert_all-Found_before i (t ∷ table) index s found =
    insert_all-Found_before (i + 1) table ((t, i) ∷ index) s (Found-cons index t s i found)

pub insert_all-Found :
    (i : ℕ) (table : List Bytes) (index : Index) (s : Bytes)
    → has s table ≡ true
    → Found (insert_all i table index) s
unfolding insert_all lookup
insert_all-Found i [] index s h = absurd (cc h)
insert_all-Found i (t ∷ table) index s h = elim (Bool-cases (bytes_eq t s)) [
  | inl same ↦ insert_all-Found_before (i + 1) table ((t, i) ∷ index) s (i, rw same refl)
  | inr other ↦ insert_all-Found (i + 1) table ((t, i) ∷ index) s (rw other at h)
]
