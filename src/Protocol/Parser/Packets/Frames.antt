-- ===== src/Protocol/Parser/Packets/Frames.antt =====
-- A frame that was read is not read otherwise when more of the stream is there.
use ckb_standalone_debugger.Prelude.{
  ℕ, ◌-◌, ◌<◌, ◌≤◌, ◌==◌, ne→==-false, ◌≡◌, ◌≢◌, refl, sym, ap, ◌∙◌, Bool, Option, none, some, [],
  ◌∷◌, ◌++◌, Bytes, length, arith, append_assoc, if◌then◌else◌, Bool-cases, inl, inr, length-append,
}
use ckb_standalone_debugger.Prelude.Format.{codes}
use ckb_standalone_debugger.Protocol.Types.{Packet, ack, nack, interrupt, packet_data}
use ckb_standalone_debugger.Protocol.Nom.{IResult, done, incomplete, error, panicked, Nom}
use ckb_standalone_debugger.Protocol.Nom.Documented.{NomLaws, span, is_other, settle, map_result}
use ckb_standalone_debugger.Protocol.Parser.Packets.{packet_of, run_parser, offset}
use ckb_standalone_debugger.Protocol.Parser.Packets.Scan.{
  sum_of, digits_read, checked, scan_body, scan, packet_or_response-scan,
}

span-append :
    (test : ℕ → Bool) (i more : Bytes) (c : ℕ) (r : Bytes)
    → (span test i).1 ≡ c ∷ r
    → span test (i ++ more) ≡ ((span test i).0, c ∷ r ++ more)
unfolding span
span-append test [] more c r e = cc
span-append test (b ∷ i) more c r e = elim (Bool-cases (test b)) [
  | inl t ↦ ground (arith, span-append test i more c r)
  | inr f ↦ ground arith
]

span-whole : (test : ℕ → Bool) (i : Bytes) → (span test i).0 ++ (span test i).1 ≡ i
unfolding span
span-whole test [] = refl
span-whole test (b ∷ i) = ground (arith, span-whole test i)

-- What was read is a part of the input that is not empty.
abbrev pub Consumed : Bytes → Bytes → Type 0
Consumed buf rest = (front : Bytes) × (buf ≡ front ++ rest) × (0 < length front)

settle-append :
    (sum : Option ℕ) (i more : Bytes) {rest : Bytes} {chk : ℕ}
    → settle error i sum ≡ done rest chk
    → settle error (i ++ more) sum ≡ done (rest ++ more) chk
settle-append none i more e = cc
settle-append (some x) i more e = cc

digits_read-append :
    (i more : Bytes) {rest : Bytes} {chk : ℕ}
    → digits_read i ≡ done rest chk
    → digits_read (i ++ more) ≡ done (rest ++ more) chk
digits_read-append [] more e = cc
digits_read-append (a ∷ []) more e = cc
digits_read-append (a ∷ b ∷ i) more e = settle-append (sum_of a b) i more e

settled :
    {rest i : Bytes} {chk : ℕ} (sum : Option ℕ) → settle error i sum ≡ done rest chk → i ≡ rest
settled none e = cc
settled (some x) e = cc

digits_read-Consumed :
    (i : Bytes) {rest : Bytes} {chk : ℕ}
    → digits_read i ≡ done rest chk
    → (front : Bytes) × (i ≡ front ++ rest)
digits_read-Consumed [] e = cc
digits_read-Consumed (a ∷ []) e = cc
digits_read-Consumed (a ∷ b ∷ i) e = (a ∷ b ∷ [], ap (λ l. a ∷ b ∷ l) (settled (sum_of a b) e))

-- The value behind `map_result`.
mapped :
    {A B : Type 0} (f : A → B) (r : IResult A) {rest : Bytes} {b : B}
    → map_result f r ≡ done rest b
    → (a : A) × (r ≡ done rest a) × (f a ≡ b)
mapped f (done rest a) e = (a, cc, cc)
mapped f incomplete e = cc
mapped f error e = cc
mapped f panicked e = cc

checked-append :
    (body i more : Bytes) {rest : Bytes} {found : Packet}
    → checked body i ≡ done rest found
    → checked body (i ++ more) ≡ done (rest ++ more) found
checked-append body [] more e = cc
checked-append body (mark ∷ i) more {rest} e =
    let (chk, read, same) = mapped (λ chk. packet_data body chk) (digits_read i) e in
    rw (digits_read-append i more read) (ap (done (rest ++ more)) same)

checked-Consumed :
    (body i : Bytes) {rest : Bytes} {found : Packet}
    → checked body i ≡ done rest found
    → Consumed i rest
checked-Consumed body [] e = cc
checked-Consumed body (mark ∷ i) e =
    let (chk, read, same) = mapped (λ chk. packet_data body chk) (digits_read i) e in
    let (front, eq) = digits_read-Consumed i read in
    (mark ∷ front, ap (λ l. mark ∷ l) eq, omega arith)

abbrev is_text : ℕ → Bool
is_text = is_other (codes "#")

scan_body-append :
    (i more : Bytes) {rest : Bytes} {found : Packet}
    → scan_body i ≡ done rest found
    → scan_body (i ++ more) ≡ done (rest ++ more) found
scan_body-append i more e = scanned (span is_text i).1 refl e
  where
    scanned :
        (left : Bytes) {rest : Bytes} {found : Packet}
        → (span is_text i).1 ≡ left
        → scan_body i ≡ done rest found
        → scan_body (i ++ more) ≡ done (rest ++ more) found
    scanned [] q e = cc (rw q at e)
    scanned (c ∷ r) q e =
        rw (span-append is_text i more c r q)
          (checked-append (span is_text i).0 (c ∷ r) more (rw q at e))

scan_body-Consumed :
    (i : Bytes) {rest : Bytes} {found : Packet} → scan_body i ≡ done rest found → Consumed i rest
scan_body-Consumed i e =
    let (front, eq, some_) = checked-Consumed (span is_text i).0 (span is_text i).1 e in
    (
      (span is_text i).0 ++ front,
      sym (span-whole is_text i)
          ∙ ap (λ l. (span is_text i).0 ++ l) eq
          ∙ sym (append_assoc (span is_text i).0 front _),
      rw (length-append (span is_text i).0 front) (omega arith),
    )

abbrev sign_read : ℕ → Bytes → IResult Packet
sign_read b i =
    if b'+' == b
    then done i ack
    else if b'-' == b
    then done i nack
    else if 3 == b
    then done i interrupt
    else error

sign_read-append :
    (b : ℕ) (i more : Bytes) {rest : Bytes} {found : Packet}
    → sign_read b i ≡ done rest found
    → sign_read b (i ++ more) ≡ done (rest ++ more) found
sign_read-append b i more e = ground arith

sign_read_rest :
    (b : ℕ) (i : Bytes) {rest : Bytes} {found : Packet} → sign_read b i ≡ done rest found → i ≡ rest
sign_read_rest b i e = ground arith

scan-append :
    (i more : Bytes) {rest : Bytes} {found : Packet}
    → scan i ≡ done rest found
    → scan (i ++ more) ≡ done (rest ++ more) found
scan-append [] more e = cc
scan-append (b ∷ i) more e = elim (Bool-cases (b'$' == b)) [
  | inl t ↦ rw t (scan_body-append i more (rw t at e))
  | inr f ↦ rw f (sign_read-append b i more (rw f at e))
]

scan-Consumed :
    (i : Bytes) {rest : Bytes} {found : Packet} → scan i ≡ done rest found → Consumed i rest
scan-Consumed [] e = cc
scan-Consumed (b ∷ i) e = elim (Bool-cases (b'$' == b)) [
  | inl t ↦
      let (front, eq, some_) = scan_body-Consumed i (rw t at e) in
      (b ∷ front, ap (λ l. b ∷ l) eq, omega arith)
  | inr f ↦ (b ∷ [], ap (λ l. b ∷ l) (sign_read_rest b i (rw f at e)), omega arith)
]

-- A packet of `run_parser` comes with what is left of the input.
packet_of_done :
    (buf : Bytes) (r : IResult Packet) {len : ℕ} {found : Packet}
    → packet_of buf r ≡ some (len, found)
    → (rest : Bytes) × (r ≡ done rest found) × (len ≡ length buf - length rest)
unfolding offset
packet_of_done buf (done rest a) e = (rest, ground arith, ground arith)
packet_of_done buf incomplete e = cc
packet_of_done buf error e = cc
packet_of_done buf panicked e = cc

taken : (front rest : Bytes) → length (front ++ rest) - length rest ≡ length front
taken front rest = omega (arith, length-append front rest)

scan_other : (b : ℕ) (i : Bytes) → b ≢ b'$' → b ≢ b'+' → b ≢ b'-' → b ≢ 3 → scan (b ∷ i) ≡ error
scan_other b i p q r t =
    rw
      (
        ne→==-false b'$' b (λ e. p (sym e)),
        ne→==-false b'+' b (λ e. q (sym e)),
        ne→==-false b'-' b (λ e. r (sym e)),
        ne→==-false 3 b (λ e. t (sym e)),
      )
      refl

module _ (n : Nom) (laws : NomLaws n) where
  pub run_parser-scan : (buf : Bytes) → run_parser n buf ≡ packet_of buf (scan buf)
  unfolding run_parser
  run_parser-scan buf = ap (packet_of buf) (packet_or_response-scan n laws buf)

  read_back :
      (buf : Bytes) {len : ℕ} {found : Packet}
      → run_parser n buf ≡ some (len, found)
      → (rest : Bytes) × (scan buf ≡ done rest found) × (len ≡ length buf - length rest)
  read_back buf e = packet_of_done buf (scan buf) (sym (run_parser-scan buf) ∙ e)

  -- More input behind a packet does not change it.
  pub run_parser-append :
      (buf more : Bytes) {len : ℕ} {found : Packet}
      → run_parser n buf ≡ some (len, found)
      → run_parser n (buf ++ more) ≡ some (len, found)
  unfolding offset
  run_parser-append buf more {len} {found} e =
      let (rest, read, at) = read_back buf e in
      run_parser-scan (buf ++ more)
      ∙ ap (packet_of (buf ++ more)) (scan-append buf more read)
      ∙ ap (λ k. some (k, found)) (omega (arith, length-append buf more, length-append rest more))

  -- A packet takes a byte at least, and no more than there are.
  pub run_parser_bounds :
      (buf : Bytes) {len : ℕ} {found : Packet}
      → run_parser n buf ≡ some (len, found)
      → (0 < len) × (len ≤ length buf)
  run_parser_bounds buf e =
      let (rest, read, at) = read_back buf e in
      let (front, whole, some_) = scan-Consumed buf read in
      let size = ap length whole ∙ length-append front rest in (omega arith, omega arith)

  pub run_parser_nil : run_parser n [] ≡ none
  run_parser_nil = run_parser-scan []

  pub run_parser_other :
      (b : ℕ) (buf : Bytes) → b ≢ b'$' → b ≢ b'+' → b ≢ b'-' → b ≢ 3 → run_parser n (b ∷ buf) ≡ none
  run_parser_other b buf p q r t =
      run_parser-scan (b ∷ buf) ∙ ap (packet_of (b ∷ buf)) (scan_other b buf p q r t)
