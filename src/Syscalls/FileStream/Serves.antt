-- ===== src/Syscalls/FileStream/Serves.antt =====
-- What the read call leaves in the machine (`FileStream::ecall`, ckb-debugger/src/misc.rs).
use ckb_standalone_debugger.Prelude.{
  ℕ, zero, suc, ◌+◌, ◌-◌, ◌%◌, ◌<◌, ◌≡◌, refl, ◌∙◌, ap, inl, inr, Bool, some, [], ◌∷◌, Bytes,
  length, take, drop, get_or, leb, min, Bool-cases, arith, ok, Outcome-cases, dec_lt, length-take,
  length-drop,
}
use ckb_standalone_debugger.Vm.{minus_one, Vm, RegisterLaws, a0, a1, a7}
use ckb_standalone_debugger.Syscalls.FileStream.{
  FileStream, read, deliver, ecall, capacity_overflow, read_syscall_number,
}

-- A memory: bytes that were stored are loaded again, and registers are no part of it.
pub record StoreLaws {M D I : Type 0} (vm : Vm M D I) : Type 0 where
  pub load8-store_bytes :
      (addr : ℕ) (bs : Bytes) (m : M) (i : ℕ)
      → i < length bs
      → (vm.store_bytes addr bs m).0 ≡ ok tt
      → (vm.load8 (addr + i) (vm.store_bytes addr bs m).1).0 ≡ ok (get_or bs i 0 % 256)
  pub load8-set_register :
      (i v addr : ℕ) (m : M) → (vm.load8 addr (vm.set_register i v m)).0 ≡ (vm.load8 addr m).0

get_or-drop : (n i : ℕ) (xs : Bytes) → get_or (drop n xs) i 0 ≡ get_or xs (n + i) 0
get_or-drop zero i xs = let e : i ≡ 0 + i = omega arith in ap (λ k. get_or xs k 0) e
get_or-drop (suc n) i [] = refl
get_or-drop (suc n) i (x ∷ xs) =
    let e : suc (n + i) ≡ suc n + i = omega arith in
    get_or-drop n i xs ∙ ap (λ k. get_or (x ∷ xs) k 0) e

get_or-take : (n i : ℕ) (xs : Bytes) → i < n → get_or (take n xs) i 0 ≡ get_or xs i 0
get_or-take zero i xs h = absurd (omega arith)
get_or-take (suc n) i [] h = refl
get_or-take (suc n) zero (x ∷ xs) h = refl
get_or-take (suc n) (suc i) (x ∷ xs) h = get_or-take n i xs (omega arith)

module _ {M D I : Type 0} (vm : Vm M D I) (laws : RegisterLaws vm) (store : StoreLaws vm) where
  -- The bytes that a read call is for: as many as wanted, or as there are behind the offset.
  abbrev pub wanted : FileStream → M → ℕ
  wanted s m = min (vm.registers m a1) (length s.content - s.offset)

  -- What a read call leaves, of the machine and the stream that it found: without a byte to read,
  -- -1 in `a0` and the stream as it was; else the number of bytes in `a0`, the bytes of the file
  -- behind the offset in the memory at the buffer, and the offset moved on by that number.
  pub data Served (s : FileStream) (m : M) (s' : FileStream) (m' : M) : Type 0 where
    exhausted :
        wanted s m ≡ 0
        → vm.registers m' a0 ≡ minus_one
        → s'.content ≡ s.content
        → s'.offset ≡ s.offset
        → Served s m s' m'
    filled :
        0 < wanted s m
        → vm.registers m' a0 ≡ wanted s m
        → s'.content ≡ s.content
        → s'.offset ≡ s.offset + wanted s m
        → ((i : ℕ)
            → i < wanted s m
            → (vm.load8 (vm.registers m a0 + i) m').0
              ≡ ok (get_or s.content (s.offset + i) 0 % 256))
        → Served s m s' m'

  -- A buffer that was delivered.
  deliver-filled :
      (arg_buf : ℕ) (bs : Bytes) (m : M) {u : Bool}
      → 0 < length bs
      → (deliver vm arg_buf (some bs) m).0 ≡ ok u
      → (vm.registers (deliver vm arg_buf (some bs) m).1 a0 ≡ length bs)
        × ((i : ℕ)
            → i < length bs
            → (vm.load8 (arg_buf + i) (deliver vm arg_buf (some bs) m).1).0
              ≡ ok (get_or bs i 0 % 256))
  unfolding deliver
  deliver-filled arg_buf [] m h e = absurd (omega arith)
  deliver-filled arg_buf (b ∷ bs) m h e =
      elim (Outcome-cases (vm.store_bytes arg_buf (b ∷ bs) m).0) [
        | inl (tt, good) ↦ (
          rw (good, deliver)
              (laws.registers-set_register_self a0 (length (b ∷ bs)) _ (omega arith)),
          λ i there.
              rw (good, deliver)
                (store.load8-set_register a0 (length (b ∷ bs)) (arg_buf + i) _
                  ∙ store.load8-store_bytes arg_buf (b ∷ bs) m i there good),
        )
        | inr (inl (x, bad)) ↦ absurd (cc (rw (bad, deliver) at e))
        | inr (inr gone) ↦ absurd (cc (rw (gone, deliver) at e))
      ]

  deliver-empty :
      (arg_buf : ℕ) (bs : Bytes) (m : M)
      → length bs ≡ 0
      → vm.registers (deliver vm arg_buf (some bs) m).1 a0 ≡ minus_one
  unfolding deliver
  deliver-empty arg_buf [] m h = laws.registers-set_register_self a0 minus_one m (omega arith)
  deliver-empty arg_buf (b ∷ bs) m h = absurd (omega arith)

  -- A read and the delivery of what it gave.
  read-Served :
      (s : FileStream) (m : M) {u : Bool}
      → (deliver vm (vm.registers m a0) (read (vm.registers m a1) s).0 m).0 ≡ ok u
      → Served s m
          (read (vm.registers m a1) s).1
          (deliver vm (vm.registers m a0) (read (vm.registers m a1) s).0 m).1
  unfolding read
  read-Served s m e = elim (Bool-cases (leb (length s.content) s.offset)) [
    | inl over ↦
        rw (over, read)
          (exhausted (ground arith)
            (unfold deliver in laws.registers-set_register_self a0 minus_one m (omega arith)) refl
            refl)
    | inr inside ↦
        let bs = take (wanted s m) (drop s.offset s.content) in
        let size : length bs ≡ wanted s m = omega (
          arith,
          length-take (wanted s m) (drop s.offset s.content),
          length-drop s.offset s.content,
        ) in
        elim (dec_lt 0 (wanted s m)) [
          | yes more ↦
              let (count, bytes) =
                deliver-filled (vm.registers m a0) bs m (omega arith) (rw (inside, read) at e) in
              rw (inside, read)
                (filled (omega arith) (count ∙ size) refl refl (λ i there.
                  bytes i (omega arith)
                  ∙ ap (λ k. ok (k % 256))
                      (get_or-take (wanted s m) i (drop s.offset s.content) there
                        ∙ get_or-drop s.offset i s.content)))
          | no nothing ↦
              rw (inside, read)
                (exhausted (omega arith) (deliver-empty (vm.registers m a0) bs m (omega arith)) refl
                  (omega arith))
        ]
  ]

  -- With the laws of the register file and of the memory, a read call that succeeds puts the bytes
  -- of the file behind the offset into the memory at the buffer, as many as wanted or as there are,
  -- leaves their number in `a0` and moves the offset on by it; where that is no byte, it leaves -1
  -- in `a0` and the stream as it was.
  pub ecall-Served :
      (s : FileStream) (m : M) {u : Bool}
      → vm.registers m a7 ≡ read_syscall_number
      → (ecall vm s m).0 ≡ ok u
      → Served s m (ecall vm s m).1 (ecall vm s m).2
  unfolding ecall
  ecall-Served s m number e = elim (Bool-cases (capacity_overflow (vm.registers m a1))) [
    | inl large ↦ absurd (cc (rw (number, ecall, large) at e))
    | inr fits ↦ rw (number, ecall, fits) (read-Served s m (rw (number, ecall, fits) at e))
  ]
