-- ===== src/Protocol/Parser/Packets/Written.antt =====
-- The parser reads the frames that the writer writes.
use ckb_standalone_debugger.Prelude.{
  ℕ, zero, suc, ◌+◌, ◌/◌, ◌%◌, ◌<◌, ◌≤◌, if◌then◌else◌, Bool-cases, ℕ_discrete, inl, inr, subst,
  ◌==◌, ==_iff, ◌≡◌, refl, ap, ◌∙◌, Bool, true, false, none, some, [], ◌∷◌, ◌++◌, Bytes, length,
  arith, length-append, append_assoc, Option,
}
use ckb_standalone_debugger.Prelude.Format.{codes, hex_byte, digit_char}
use ckb_standalone_debugger.Protocol.Types.{packet_data}
use ckb_standalone_debugger.Protocol.Nom.{Nom, done, error}
use ckb_standalone_debugger.Protocol.Nom.Documented.{NomLaws, span, is_other, settle, map_result}
use ckb_standalone_debugger.Protocol.Parser.Numbers.{from_utf8, from_str_radix}
use ckb_standalone_debugger.Protocol.Parser.Numbers.Written.{Plain}
use ckb_standalone_debugger.Protocol.Parser.Packets.{run_parser, packet_of, offset}
use ckb_standalone_debugger.Protocol.Parser.Packets.Scan.{sum_of, digits_read, scan}
use ckb_standalone_debugger.Protocol.Parser.Packets.Frames.{run_parser-scan}

-- A test of `left` numbers, from one on.
passes : ℕ → ℕ → (ℕ → Bool) → Bool
passes zero start test = true
passes (suc left) start test =
    let later = passes left (start + 1) test in if test start then later else false

passes_lem :
    (left start : ℕ) (test : ℕ → Bool) (k : ℕ)
    → passes left start test ≡ true
    → start ≤ k
    → k < start + left
    → test k ≡ true
unfolding passes
passes_lem zero start test k e from below = absurd (omega arith)
passes_lem (suc left) start test k e from below = elim (Bool-cases (test start)) [
  | inr bad ↦ absurd (cc (rw bad at e))
  | inl good ↦ elim (ℕ_discrete start k) [
    | yes same ↦ subst (λ i. test i ≡ true) same good
    | no other ↦
        let above : start + 1 ≤ k = omega arith in
        passes_lem left (start + 1) test k (rw good at e) above (omega arith)
  ]
]

abbrev is_some : Option ℕ → ℕ → Bool
is_some none k = false
is_some (some v) k = v == k

is_some_sound : (o : Option ℕ) (k : ℕ) → is_some o k ≡ true → o ≡ some k
is_some_sound none k e = cc
is_some_sound (some v) k e = ap some ((==_iff v k).0 e)

abbrev sum_read : ℕ → Option ℕ
sum_read k = sum_of (digit_char (k / 16)) (digit_char (k % 16))

sum_table : passes 256 0 (λ k. is_some (sum_read k) k) ≡ true
unfolding passes digit_char from_utf8 from_str_radix
sum_table = refl

sum_read_lem : (k : ℕ) → k < 256 → sum_read k ≡ some k
sum_read_lem k h =
    is_some_sound (sum_read k) k
      (passes_lem 256 0 (λ k. is_some (sum_read k) k) k sum_table (omega arith) (omega arith))

-- The two digits of a byte, as `{:02x}` writes them.
digits_read-hex_byte :
    (k : ℕ) (rest : Bytes) → k < 256 → digits_read (hex_byte k ++ rest) ≡ done rest k
unfolding hex_byte
digits_read-hex_byte k rest h = ap (settle error rest) (sum_read_lem k h)

abbrev is_text : ℕ → Bool
is_text = is_other (codes "#")

span-Plain :
    (body rest : Bytes) → Plain body → span is_text (body ++ b'#' ∷ rest) ≡ (body, b'#' ∷ rest)
unfolding span
span-Plain [] rest p = refl
span-Plain (b ∷ body) rest p = ground (arith, span-Plain body rest p.1)

-- A packet of a text and two digits.
abbrev pub frame : Bytes → ℕ → Bytes
frame body sum = b'$' ∷ (body ++ (b'#' ∷ hex_byte sum))

scan-frame :
    (body : Bytes) (sum : ℕ) (rest : Bytes)
    → Plain body
    → sum < 256
    → scan (frame body sum ++ rest) ≡ done rest (packet_data body sum)
scan-frame body sum rest p h =
    rw (append_assoc, span-Plain body (hex_byte sum ++ rest) p)
      (ap (map_result (λ chk. packet_data body chk)) (digits_read-hex_byte sum rest h))

length-hex_byte : (k : ℕ) → length (hex_byte k) ≡ 2
unfolding hex_byte
length-hex_byte k = refl

module _ (n : Nom) (laws : NomLaws n) where
  -- The parser takes a packet whose text has no number sign off the input, with the value of the
  -- two digits, whether that is the sum of the text or not.
  pub run_parser-frame :
      (body : Bytes) (sum : ℕ) (rest : Bytes)
      → Plain body
      → sum < 256
      → run_parser n (frame body sum ++ rest) ≡ some (length body + 4, packet_data body sum)
  unfolding offset
  run_parser-frame body sum rest p h =
      run_parser-scan n laws (frame body sum ++ rest)
      ∙ ap (packet_of (frame body sum ++ rest)) (scan-frame body sum rest p h)
      ∙ ap (λ k. some (k, packet_data body sum))
          (omega (
            arith,
            length-append (frame body sum) rest,
            length-append body (b'#' ∷ hex_byte sum),
            length-hex_byte sum,
          ))
